-- ===== src/User/Requests.antt =====
-- part3/producer.c and part3/consumer.c: what the one asks for, and which arguments the other
-- takes.
use kernal_elevator.Base.{
  ℕ, ◌≤◌, ◌≡◌, refl, ◌≢◌, ◌↔◌, inl, inr, true, some, List, [], ◌∷◌, ◌++◌, Bytes, arith, All,
  Option-cases,
}
use kernal_elevator.User.{rnd, choose_dest, Request, choose_request, producer, same_text}

pub rnd_range : (min max rand : ℕ) → min ≤ max → (min ≤ rnd min max rand) × (rnd min max rand ≤ max)
unfolding rnd
rnd_range min max rand h = omega arith

choose_dest_sound :
    (start : ℕ) (rs : List ℕ) {dest : ℕ}
    → choose_dest start rs ≡ some dest
    → (dest ≢ start) × (1 ≤ dest) × (dest ≤ 10)
unfolding choose_dest
choose_dest_sound start [] e = cc
choose_dest_sound start (r ∷ rs) {dest} e =
    ground (arith, rnd_range 1 10 r, choose_dest_sound start rs {dest = dest})

-- The loop of the producer ends with the first random number that gives another floor than the
-- start.
pub choose_dest_ends :
    (start r : ℕ) (before after : List ℕ)
    → All (λ q. rnd 1 10 q ≡ start) before
    → rnd 1 10 r ≢ start
    → choose_dest start (before ++ r ∷ after) ≡ some (rnd 1 10 r)
unfolding choose_dest
choose_dest_ends start r [] after h n = ground arith
choose_dest_ends start r (q ∷ before) after h n =
    ground (arith, choose_dest_ends start r before after h.1 n)

-- A request that the module accepts, to another floor.
pub record IsProper (r : Request) : Type 0 where
  pub kind : r.type ≤ 1
  pub from_above : 1 ≤ r.start
  pub from_below : r.start ≤ 10
  pub above : 1 ≤ r.dest
  pub below : r.dest ≤ 10
  pub moves : r.dest ≢ r.start

-- If the producer chooses a request, it has no arguments and its status is 0, the type is 0 or
-- 1, both floors are from 1 to 10, and they differ.
pub producer_sound :
    (argc : ℕ) (rands : List ℕ) {status : ℕ} {r : Request}
    → producer argc rands ≡ some (status, some r)
    → (argc ≡ 1) × (status ≡ 0) × IsProper r
unfolding producer choose_request
producer_sound argc [] e = ground arith
producer_sound argc (x ∷ []) e = ground arith
producer_sound argc (x ∷ y ∷ rs) e = elim (Option-cases (choose_dest (rnd 1 10 y) rs)) [
  | inl none_yet ↦ ground arith
  | inr (dest, d) ↦
      let sound = choose_dest_sound (rnd 1 10 y) rs d in
      ground (arith, sound, rnd_range 0 1 x, rnd_range 1 10 y)
]

pub same_text_iff : (a b : Bytes) → (same_text a b ≡ true) ↔ (a ≡ b)
unfolding same_text
same_text_iff [] [] = (λ _. refl, λ _. refl)
same_text_iff [] (y ∷ b) = (λ e. cc, λ e. cc)
same_text_iff (x ∷ a) [] = (λ e. cc, λ e. cc)
same_text_iff (x ∷ a) (y ∷ b) = ground (arith, same_text_iff a b)
