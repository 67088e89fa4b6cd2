-- ===== src/Timer/Written.antt =====
-- timer/my_timer.c: what a write to /proc/timer leaves.
use kernal_elevator.Base.{
  ℕ, zero, suc, ◌+◌, ◌≤◌, ◌≡◌, refl, sym, ap, ◌∙◌, [], ◌∷◌, ◌++◌, Bytes, length, length-append,
  take, drop, arith, ltb, inl, inr, Bool-cases,
}
use kernal_elevator.Timer.{Timer, buf_len, procfile_write}

length-take : (n : ℕ) (xs : Bytes) → n ≤ length xs → length (take n xs) ≡ n
length-take zero xs h = refl
length-take (suc n) [] h = absurd (omega arith)
length-take (suc n) (x ∷ xs) h = ap suc (length-take n xs (omega arith))

length-drop : (n : ℕ) (xs : Bytes) → n ≤ length xs → length (drop n xs) + n ≡ length xs
length-drop zero xs h = omega arith
length-drop (suc n) [] h = absurd (omega arith)
length-drop (suc n) (x ∷ xs) h = omega (arith, length-drop n xs (omega arith))

take-append : (xs ys : Bytes) → take (length xs) (xs ++ ys) ≡ xs
take-append [] ys = refl
take-append (x ∷ xs) ys = ap (λ zs. x ∷ zs) (take-append xs ys)

drop-append : (xs ys : Bytes) → drop (length xs) (xs ++ ys) ≡ ys
drop-append [] ys = refl
drop-append (x ∷ xs) ys = drop-append xs ys

-- What a write owes to the user and to the buffer.
pub record Written (user : Bytes) (count n : ℕ) (t t' : Timer) : Type 0 where
  pub taken : n ≤ count
  pub bounded : n ≤ buf_len
  pub counted : t'.procfs_buf_len ≡ n
  pub size : length t'.msg ≡ buf_len
  pub copied : take n t'.msg ≡ take n user
  pub kept : drop n t'.msg ≡ drop n t.msg

written :
    (user : Bytes) (count n : ℕ) (t : Timer)
    → n ≤ count
    → n ≤ buf_len
    → count ≤ length user
    → length t.msg ≡ buf_len
    → Written user count n t (record t { procfs_buf_len = n; msg = take n user ++ drop n t.msg })
written user count n t h b l m =
    let k = length-take n user (omega arith) in
    record {
      taken = h;
      bounded = b;
      counted = refl;
      size = omega (arith, length-append {0} (take n user) (drop n t.msg), length-drop n t.msg, k);
      copied =
          ap (λ i. take i (take n user ++ drop n t.msg)) (sym k)
          ∙ take-append (take n user) (drop n t.msg);
      kept =
          ap (λ i. drop i (take n user ++ drop n t.msg)) (sym k)
          ∙ drop-append (take n user) (drop n t.msg);
    }

-- A write to /proc/timer of `count` bytes that the user has, while `msg` has its 100 bytes,
-- takes at most `count` and at most 100 of them, sets `procfs_buf_len` to that number, puts them
-- at the start of `msg`, and leaves the rest of `msg` and its size as they were.
pub write_keeps_buffer :
    (user : Bytes) (count : ℕ) (t : Timer)
    → count ≤ length user
    → length t.msg ≡ buf_len
    → let (n, t') = procfile_write user count t in Written user count n t t'
unfolding procfile_write
write_keeps_buffer user count t l m = elim (Bool-cases (ltb buf_len count)) [
  | inl e ↦ rw (e, procfile_write) (written user count buf_len t (ground arith) (omega arith) l m)
  | inr e ↦ rw (e, procfile_write) (written user count count t (omega arith) (ground arith) l m)
]
