-- ===== src/System/Cuts.antt =====
-- Runs of the threads of part3/elevator.c, put together and taken apart.
use native.Mathlib.Decide.{dec_le}
use kernal_elevator.Base.{ℕ, ◌+◌, ◌≤◌, ◌≡◌, refl, sym, ap, subst, ◌∙◌, inl, inr, arith}
use kernal_elevator.System.Defs.{
  System, Step, schedule, start, request, stop, requested, stopped, Run, stay, go,
}
use kernal_elevator.System.Liveness.{tick, ticks, Sometime, Sometime-start, Always}

unfoldable pub chain : {s t u : System} → Run s t → Run t u → Run s u
chain a stay = a
chain a (go b st) = go (chain a b) st

tick-add : {s t : System} (st : Step s t) (m n : ℕ) → tick st (m + n) ≡ m + tick st n
tick-add (schedule _ _) m n = omega arith
tick-add start m n = refl
tick-add (request _ _ _ _ _) m n = refl
tick-add (stop _) m n = refl
tick-add (requested _ _ _ _ _ _ _) m n = refl
tick-add (stopped _ _ _ _ _) m n = refl

tick_bound : {s t : System} (st : Step s t) (n : ℕ) → (n ≤ tick st n) × (tick st n ≤ n + 1)
tick_bound (schedule _ _) n = omega arith
tick_bound start n = omega arith
tick_bound (request _ _ _ _ _) n = omega arith
tick_bound (stop _) n = omega arith
tick_bound (requested _ _ _ _ _ _ _) n = omega arith
tick_bound (stopped _ _ _ _ _) n = omega arith

pub ticks-chain :
    {s t u : System} (a : Run s t) (b : Run t u) → ticks (chain a b) ≡ ticks a + ticks b
unfolding chain
ticks-chain a stay = omega arith
ticks-chain a (go b st) = ap (tick st) (ticks-chain a b) ∙ tick-add st (ticks a) (ticks b)

pub chain-chain :
    {s t u v : System} (a : Run s t) (b : Run t u) (c : Run u v)
    → chain (chain a b) c ≡ chain a (chain b c)
unfolding chain
chain-chain a b stay = refl
chain-chain a b (go c st) = ap (λ r. go r st) (chain-chain a b c)

pub Always-chain :
    (A : (s t : System) → Step s t → Type 0) {s t u : System} (a : Run s t) (b : Run t u)
    → Always A (chain a b)
    → Always A a × Always A b
unfolding chain
Always-chain A a stay o = (o, tt)
Always-chain A a (go b st) (o, z) = let (x, y) = Always-chain A a b o in (x, (y, z))

pub Sometime-end : (P : System → Type 0) {s t : System} (run : Run s t) → P t → Sometime P run
Sometime-end P stay p = p
Sometime-end P (go run st) p = inr p

pub Sometime-chain :
    (P : System → Type 0) {s t u : System} (a : Run s t) (b : Run t u)
    → Sometime P b
    → Sometime P (chain a b)
unfolding chain
Sometime-chain P a stay p = Sometime-end P a p
Sometime-chain P a (go b st) (inl p) = inl (Sometime-chain P a b p)
Sometime-chain P a (go b st) (inr p) = inr p

-- A moment of a run at which `P` holds, not more than `n` pieces after its beginning.
pub record Within (P : System → Type 0) (n : ℕ) {s t : System} (run : Run s t) : Type 0 where
  pub at : System
  pub before : Run s at
  pub after : Run at t
  pub whole : chain before after ≡ run
  pub soon : ticks before ≤ n
  pub holds : P at

-- The moment of a run after so many pieces.
pub cut :
    (n : ℕ) {s t : System} (run : Run s t)
    → n ≤ ticks run
    → (u : System) × (a : Run s u) × (b : Run u t) × (chain a b ≡ run) × (ticks a ≡ n)
unfolding chain
cut n {s} stay h = (s, stay, stay, refl, omega arith)
cut n (go {t} {u} run st) h = elim (dec_le n (ticks run)) [
  | yes le ↦ let (m, a, b, w, e) = cut n run le in (m, a, go b st, ap (λ r. go r st) w, e)
  | no gt ↦ (u, go run st, stay, refl, omega (arith, tick_bound st (ticks run)))
]

moment :
    (P : System → Type 0) {s t : System} (run : Run s t) → Sometime P run → Within P (ticks run) run
unfolding chain
moment P {s} stay p = record {
  at = s;
  before = stay;
  after = stay;
  whole = refl;
  soon = omega arith;
  holds = p;
}
moment P (go {t} {u} run st) (inl p) =
    let m = moment P run p in
    record {
      at = m.at;
      before = m.before;
      after = go m.after st;
      whole = ap (λ r. go r st) m.whole;
      soon = omega (arith, m.soon, tick_bound st (ticks run));
      holds = m.holds;
    }
moment P (go {t} {u} run st) (inr p) = record {
  at = u;
  before = go run st;
  after = stay;
  whole = refl;
  soon = omega arith;
  holds = p;
}

-- What happens in each run of `n` pieces, happens in a longer one within `n` pieces.
pub Within-cut :
    (P : System → Type 0) (n : ℕ) {s t : System} (run : Run s t)
    → n ≤ ticks run
    → ((u : System) (a : Run s u) (b : Run u t) → chain a b ≡ run → ticks a ≡ n → Sometime P a)
    → Within P n run
unfolding chain
Within-cut P n {s} {t} run h f =
    let (u, a, b, w, e) = cut n run h in
    let m = moment P a (f u a b w e) in
    record {
      at = m.at;
      before = m.before;
      after = chain m.after b;
      whole = sym (chain-chain m.before m.after b) ∙ ap (λ r. chain r b) m.whole ∙ w;
      soon = omega (arith, m.soon, e);
      holds = m.holds;
    }

pub Within-after :
    {Q : System → Type 0} (P : System → Type 0) (m n : ℕ) {s t : System} (run : Run s t)
    (w : Within Q m run)
    → Within P n w.after
    → Within P (m + n) run
Within-after P m n run w v = record {
  at = v.at;
  before = chain w.before v.before;
  after = v.after;
  whole = chain-chain w.before v.before v.after ∙ ap (chain w.before) v.whole ∙ w.whole;
  soon = omega (arith, ticks-chain w.before v.before, w.soon, v.soon);
  holds = v.holds;
}

pub Within-Sometime :
    (P : System → Type 0) (n : ℕ) {s t : System} (run : Run s t) → Within P n run → Sometime P run
Within-Sometime P n run w =
    subst (Sometime P) w.whole
      (Sometime-chain P w.before w.after (Sometime-start P w.after w.holds))
