-- ===== src/Base/Lists.antt =====
-- Lists measured and indexed by native numbers, under the library's names.
use Prim.Native.Nat.{ℕ, zero, suc, ◌+◌, ◌≤◌, ◌<◌}
use mathlib.Core.Path.{◌≡◌, refl, sym, ap}
use mathlib.Core.Logic.{◌≢◌}
use mathlib.Core.List.{Memᴰ, List, [], ◌∷◌, ◌++◌}
use mathlib.Core.Option.{Option, none, some}
use native.Mathlib.Omega.{arith}

module _ {ℓ} {A : Type ℓ} where
  abbrev pub length : List A → ℕ
  length [] = 0
  length (x ∷ xs) = suc (length xs)

  abbrev pub get_elem? : List A → ℕ → Option A
  get_elem? [] i = none
  get_elem? (x ∷ xs) zero = some x
  get_elem? (x ∷ xs) (suc i) = get_elem? xs i

  -- A write out of bounds changes nothing.
  abbrev pub set : List A → ℕ → A → List A
  set [] i v = []
  set (x ∷ xs) zero v = v ∷ xs
  set (x ∷ xs) (suc i) v = x ∷ set xs i v

  abbrev pub modify : List A → ℕ → (A → A) → List A
  modify [] i f = []
  modify (x ∷ xs) zero f = f x ∷ xs
  modify (x ∷ xs) (suc i) f = x ∷ modify xs i f

  abbrev pub replicate : ℕ → A → List A
  replicate zero a = []
  replicate (suc n) a = a ∷ replicate n a

  abbrev pub take : ℕ → List A → List A
  take zero xs = []
  take (suc n) [] = []
  take (suc n) (x ∷ xs) = x ∷ take n xs

  abbrev pub drop : ℕ → List A → List A
  drop zero xs = xs
  drop (suc n) [] = []
  drop (suc n) (x ∷ xs) = drop n xs

  pub length-append : (xs ys : List A) → length (xs ++ ys) ≡ length xs + length ys
  length-append [] ys = omega arith
  length-append (x ∷ xs) ys = omega (arith, length-append xs ys)

module _ {ℓ} {A : Type ℓ} where
  pub length-set : (xs : List A) (i : ℕ) (v : A) → length (set xs i v) ≡ length xs
  length-set [] i v = refl
  length-set (x ∷ xs) zero v = refl
  length-set (x ∷ xs) (suc i) v = ap suc (length-set xs i v)

  pub length-modify : (xs : List A) (i : ℕ) (f : A → A) → length (modify xs i f) ≡ length xs
  length-modify [] i f = refl
  length-modify (x ∷ xs) zero f = refl
  length-modify (x ∷ xs) (suc i) f = ap suc (length-modify xs i f)

module _ {ℓ} {A : Type ℓ} where
  pub modify_id : (xs : List A) (i : ℕ) (f : A → A) → ((x : A) → f x ≡ x) → modify xs i f ≡ xs
  modify_id [] i f h = refl
  modify_id (x ∷ xs) zero f h = ap (λ y. y ∷ xs) (h x)
  modify_id (x ∷ xs) (suc i) f h = ap (λ ys. x ∷ ys) (modify_id xs i f h)

  pub modify-modify :
      (xs : List A) {i j : ℕ} (f g k : A → A)
      → i ≡ j
      → ((x : A) → k x ≡ g (f x))
      → modify (modify xs i f) j g ≡ modify xs j k
  modify-modify [] f g k e h = refl
  modify-modify (x ∷ xs) {i = zero} {j = zero} f g k e h = ap (λ y. y ∷ xs) (sym (h x))
  modify-modify (x ∷ xs) {i = zero} {j = suc j} f g k e h = absurd (omega arith)
  modify-modify (x ∷ xs) {i = suc i} {j = zero} f g k e h = absurd (omega arith)
  modify-modify (x ∷ xs) {i = suc i} {j = suc j} f g k e h =
      ap (λ ys. x ∷ ys) (modify-modify xs {i = i} {j = j} f g k (omega arith) h)

module _ {ℓ} {A : Type ℓ} where
  pub get_elem?_of_lt : (xs : List A) (i : ℕ) → i < length xs → (x : A) × (get_elem? xs i ≡ some x)
  get_elem?_of_lt [] i h = elim h [ ]
  get_elem?_of_lt (x ∷ xs) zero h = (x, refl)
  get_elem?_of_lt (x ∷ xs) (suc i) h = get_elem?_of_lt xs i (omega arith)

  pub set-set : (qs : List A) (i : ℕ) (q r : A) → set (set qs i q) i r ≡ set qs i r
  set-set [] i q r = refl
  set-set (x ∷ qs) zero q r = refl
  set-set (x ∷ qs) (suc i) q r = ap (λ ys. x ∷ ys) (set-set qs i q r)

  pub set-get : (qs : List A) (i : ℕ) {q : A} → get_elem? qs i ≡ some q → set qs i q ≡ qs
  set-get [] i e = refl
  set-get (x ∷ qs) zero e = cc
  set-get (x ∷ qs) (suc i) e = ap (λ ys. x ∷ ys) (set-get qs i e)

  pub take-suc :
      (n : ℕ) (xs : List A) {x : A}
      → get_elem? xs n ≡ some x
      → take (suc n) xs ≡ take n xs ++ x ∷ []
  take-suc n [] e = cc
  take-suc zero (y ∷ xs) e = cc
  take-suc (suc n) (y ∷ xs) e = ap (λ ys. y ∷ ys) (take-suc n xs e)

  pub length-take : (n : ℕ) (xs : List A) → n ≤ length xs → length (take n xs) ≡ n
  length-take zero xs h = refl
  length-take (suc n) [] h = absurd (omega arith)
  length-take (suc n) (x ∷ xs) h = ap suc (length-take n xs (omega arith))

  pub take-all : (n : ℕ) (xs : List A) → length xs ≡ n → take n xs ≡ xs
  take-all zero [] h = refl
  take-all (suc n) [] h = refl
  take-all zero (x ∷ xs) h = absurd (omega arith)
  take-all (suc n) (x ∷ xs) h = ap (λ ys. x ∷ ys) (take-all n xs (omega arith))

  pub drop-all : (n : ℕ) (xs : List A) → length xs ≤ n → drop n xs ≡ []
  drop-all zero [] h = refl
  drop-all (suc n) [] h = refl
  drop-all zero (x ∷ xs) h = absurd (omega arith)
  drop-all (suc n) (x ∷ xs) h = drop-all n xs (omega arith)

  pub drop-append : (xs ys : List A) → drop (length xs) (xs ++ ys) ≡ ys
  drop-append [] ys = refl
  drop-append (x ∷ xs) ys = drop-append xs ys

  pub modify-eq-set :
      (xs : List A) (i : ℕ) (f : A → A) {x : A}
      → get_elem? xs i ≡ some x
      → modify xs i f ≡ set xs i (f x)
  modify-eq-set [] i f e = refl
  modify-eq-set (y ∷ xs) zero f {x} e = cc
  modify-eq-set (y ∷ xs) (suc i) f e = ap (λ ys. y ∷ ys) (modify-eq-set xs i f e)

module _ {ℓ} {A : Type ℓ} where
  pub get_elem?-set_ne :
      (xs : List A) (i j : ℕ) (v : A) → i ≢ j → get_elem? (set xs i v) j ≡ get_elem? xs j
  get_elem?-set_ne [] i j v h = refl
  get_elem?-set_ne (x ∷ xs) zero zero v h = absurd (h refl)
  get_elem?-set_ne (x ∷ xs) zero (suc j) v h = refl
  get_elem?-set_ne (x ∷ xs) (suc i) zero v h = refl
  get_elem?-set_ne (x ∷ xs) (suc i) (suc j) v h = get_elem?-set_ne xs i j v (λ e. h (ap suc e))

  pub get_elem?-set_self :
      (xs : List A) (i : ℕ) (v : A) → i < length xs → get_elem? (set xs i v) i ≡ some v
  get_elem?-set_self [] i v h = elim h [ ]
  get_elem?-set_self (x ∷ xs) zero v h = refl
  get_elem?-set_self (x ∷ xs) (suc i) v h = get_elem?-set_self xs i v (omega arith)

  pub length_of_mem : {a : A} {xs : List A} → Memᴰ a xs → 0 < length xs
  length_of_mem (Memᴰ.head e) = omega arith
  length_of_mem (Memᴰ.tail m) = omega arith

-- A predicate on all elements computes to a tuple.
module _ {ℓ κ} {A : Type ℓ} (P : A → Type κ) where
  abbrev pub All : List A → Type κ
  All [] = Unit
  All (x ∷ xs) = P x × All xs

  pub All-append : (xs ys : List A) → All xs → All ys → All (xs ++ ys)
  All-append [] ys hx hy = hy
  All-append (x ∷ xs) ys (px, hx) hy = (px, All-append xs ys hx hy)

-- `whole` is `xs` and `ys` merged: each keeps its order, and nothing is lost or made up.
pub data Merge {ℓ} {A : Type ℓ} : List A → List A → List A → Type ℓ where
  done : Merge [] [] []
  left : {x : A} {xs ys zs : List A} → Merge xs ys zs → Merge (x ∷ xs) ys (x ∷ zs)
  right : {y : A} {xs ys zs : List A} → Merge xs ys zs → Merge xs (y ∷ ys) (y ∷ zs)

pub length-Merge {ℓ} :
    {A : Type ℓ} {xs ys zs : List A} → Merge xs ys zs → length xs + length ys ≡ length zs
length-Merge done = refl
length-Merge (left m) = omega (arith, length-Merge m)
length-Merge (right m) = omega (arith, length-Merge m)

-- Both parts of a merge have what the whole has.
module _ {ℓ κ} {A : Type ℓ} (P : A → Type κ) where
  pub All-left : {xs ys zs : List A} → Merge xs ys zs → All P zs → All P xs
  All-left done h = tt
  All-left (left m) (p, h) = (p, All-left m h)
  All-left (right m) (p, h) = All-left m h

  pub All-right : {xs ys zs : List A} → Merge xs ys zs → All P zs → All P ys
  All-right done h = tt
  All-right (left m) (p, h) = All-right m h
  All-right (right m) (p, h) = (p, All-right m h)
