-- ===== src/System/Bags.antt =====
-- Passengers up to order: a bag is a multiset.
use mathlib.Core.List.Perm
use mathlib.Core.List.{Perm, perm_middle}
use mathlib.Core.Quot.{sound}
use mathlib.Mathlib.Data.Multiset.Defs.{Multiset, of_list}
use mathlib.Mathlib.Data.Multiset.AddSub.{add, add_comm, add_assoc, zero-add}
use kernal_elevator.Base.{
  ℕ, zero, suc, ◌≡◌, sym, ap, ◌∙◌, some, List, [], ◌∷◌, ◌++◌, Merge, done, left, right, get_elem?,
  set,
}
use kernal_elevator.Elevator.State.{Passenger}

Merge-perm : {xs ys zs : List Passenger} → Merge xs ys zs → Perm zs (xs ++ ys)
Merge-perm done = Perm.nil
Merge-perm (left m) = Perm.cons _ (Merge-perm m)
Merge-perm {xs} (right {y} {ys = ys} m) =
    Perm.trans (Perm.cons y (Merge-perm m)) (Perm.symm (perm_middle xs ys))

-- A split of a list is a sum of bags.
pub of_list-Merge :
    {xs ys zs : List Passenger} → Merge xs ys zs → of_list zs ≡ add (of_list xs) (of_list ys)
of_list-Merge m = sound (Merge-perm m)

-- All who wait, on every floor.
abbrev pub everybody : List (List Passenger) → Multiset Passenger
everybody [] = of_list []
everybody (q ∷ qs) = add (of_list q) (everybody qs)

pub add_left_comm : (a b c : Multiset Passenger) → add a (add b c) ≡ add b (add a c)
add_left_comm a b c = sym (add_assoc a b c) ∙ ap (λ x. add x c) (add_comm a b) ∙ add_assoc b a c

-- If the queue of one floor loses the bag `b`, so do all who wait.
pub everybody-less :
    (qs : List (List Passenger)) (i : ℕ) (q' : List Passenger) (b : Multiset Passenger)
    {q : List Passenger}
    → get_elem? qs i ≡ some q
    → of_list q ≡ add b (of_list q')
    → everybody qs ≡ add b (everybody (set qs i q'))
everybody-less [] i q' b e h = cc
everybody-less (x ∷ qs) zero q' b {q} e h =
    ap (λ a. add (of_list a) (everybody qs)) (cc)
    ∙ ap (λ a. add a (everybody qs)) h
    ∙ add_assoc b (of_list q') (everybody qs)
everybody-less (x ∷ qs) (suc i) q' b e h =
    ap (add (of_list x)) (everybody-less qs i q' b e h)
    ∙ add_left_comm (of_list x) b (everybody (set qs i q'))

-- And if it gains one, so do they.
pub everybody-more :
    (qs : List (List Passenger)) (i : ℕ) (q' : List Passenger) (b : Multiset Passenger)
    {q : List Passenger}
    → get_elem? qs i ≡ some q
    → of_list q' ≡ add b (of_list q)
    → everybody (set qs i q') ≡ add b (everybody qs)
everybody-more [] i q' b e h = cc
everybody-more (x ∷ qs) zero q' b {q} e h =
    ap (λ a. add a (everybody qs)) h
    ∙ add_assoc b (of_list q) (everybody qs)
    ∙ ap (λ a. add b (add (of_list a) (everybody qs))) (cc)
everybody-more (x ∷ qs) (suc i) q' b e h =
    ap (add (of_list x)) (everybody-more qs i q' b e h) ∙ add_left_comm (of_list x) b (everybody qs)

-- The sums of an account, where `b` moves: from outside to the waiting, from the waiting to those
-- aboard, from those aboard to the outside; and where all aboard go.
module _ (aboard aboard' waiting waiting' b : Multiset Passenger) where
  pub balance-comes :
      waiting' ≡ add b waiting
      → aboard' ≡ aboard
      → add b (add aboard waiting) ≡ add (of_list []) (add aboard' waiting')
  balance-comes w a =
      add_left_comm b aboard waiting
      ∙ ap (add aboard) (sym w)
      ∙ ap (λ x. add x waiting') (sym a)
      ∙ sym (zero-add (add aboard' waiting'))

  pub balance-boards :
      waiting ≡ add b waiting'
      → aboard' ≡ add b aboard
      → add (of_list []) (add aboard waiting) ≡ add (of_list []) (add aboard' waiting')
  balance-boards w a = ap (add (of_list [])) (
      ap (add aboard) w
      ∙ add_left_comm aboard b waiting'
      ∙ sym (add_assoc b aboard waiting')
      ∙ ap (λ x. add x waiting') (sym a))

  pub balance-leaves :
      aboard ≡ add b aboard'
      → waiting' ≡ waiting
      → add (of_list []) (add aboard waiting) ≡ add b (add aboard' waiting')
  balance-leaves a w =
      zero-add (add aboard waiting)
      ∙ ap (λ x. add x waiting) a
      ∙ add_assoc b aboard' waiting
      ∙ ap (λ x. add b (add aboard' x)) (sym w)

  pub balance-put_out :
      aboard' ≡ of_list []
      → waiting' ≡ waiting
      → add (of_list []) (add aboard waiting) ≡ add aboard (add aboard' waiting')
  balance-put_out a w =
      zero-add (add aboard waiting)
      ∙ ap (add aboard) (sym w ∙ sym (zero-add waiting') ∙ ap (λ x. add x waiting') (sym a))
