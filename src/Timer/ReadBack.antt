-- ===== src/Timer/ReadBack.antt =====
-- timer/my_timer.c: a reader of /proc/timer, who takes the numbers out of the text again.
use kernal_elevator.Base.{
  ℕ, zero, suc, ◌+◌, ◌/◌, ◌%◌, ◌≤◌, ◌<◌, ◌≡◌, refl, sym, ap, ◌∙◌, ◌≢◌, true, Option, none, some, [],
  ◌∷◌, ◌++◌, append_assoc, append-nil, Bytes, codes, length, drop, drop-append, All, decimal,
  digits, value, value-decimal, arith, ◌==◌, if◌then◌else◌, ◌>>=◌,
}
use kernal_elevator.Timer.{Timespec, Timer, Reading, procfile_read}
use kernal_elevator.Timer.Report.{IsShort, shown, line, first_text, read_first}

-- The text before the first `c`, and the text behind it.
unfoldable pub cut : ℕ → Bytes → Option (Bytes × Bytes)
cut c [] = none
cut c (x ∷ xs) =
    let rest = cut c xs in if x == c then some ([], xs) else (rest >>= λ r. some (x ∷ r.0, r.1))

-- A line `label sec.nsec`, and what comes behind it.
unfoldable pub parse_line : Bytes → Bytes → Option (Timespec × Bytes)
parse_line label text = do
  (sec, rest) ← cut b'.' (drop (length label) text)
  (nsec, behind) ← cut b'\n' rest
  some (record { tv_sec = value 0 sec; tv_nsec = value 0 nsec }, behind)

pub cut-append :
    (c : ℕ) (xs ys : Bytes) → All (λ x. x ≢ c) xs → cut c (xs ++ c ∷ ys) ≡ some (xs, ys)
unfolding cut
cut-append c [] ys h = ground arith
cut-append c (x ∷ xs) ys (ne, h) = ground (arith, cut-append c xs ys h)

-- The digits are digits.
digits-other :
    (c fuel n : ℕ) (out : Bytes)
    → c < b'0'
    → All (λ x. x ≢ c) out
    → All (λ x. x ≢ c) (digits fuel n out)
unfolding digits
digits-other c zero n out l h = h
digits-other c (suc fuel) n out l h =
    ground (arith, digits-other c fuel (n / 10) ((b'0' + n % 10) ∷ out) l)

pub decimal-other : (c n : ℕ) → c < b'0' → All (λ x. x ≢ c) (decimal n)
unfolding decimal
decimal-other c n l = digits-other c (suc n) n [] l tt

pub line-append :
    (label : Bytes) (t : Timespec) (behind : Bytes)
    → line label t ++ behind
      ≡ label ++ (decimal t.tv_sec ++ b'.' ∷ (decimal t.tv_nsec ++ b'\n' ∷ behind))
line-append label t behind =
    let sec = decimal t.tv_sec in
    let nsec = decimal t.tv_nsec in
    let end = b'\n' ∷ behind in
    append_assoc (label ++ shown t) (codes "\n") behind
    ∙ append_assoc label (shown t) end
    ∙ ap (λ x. label ++ x)
        (append_assoc (sec ++ codes ".") nsec end ∙ append_assoc sec (codes ".") (nsec ++ end))

pub parse-line :
    (label : Bytes) (t : Timespec) (behind : Bytes)
    → parse_line label (line label t ++ behind) ≡ some (t, behind)
unfolding parse_line
parse-line label t behind =
    rw
      (
        line-append label t behind,
        drop-append label (decimal t.tv_sec ++ b'.' ∷ (decimal t.tv_nsec ++ b'\n' ∷ behind)),
        cut-append b'.' (decimal t.tv_sec) (decimal t.tv_nsec ++ b'\n' ∷ behind)
            (decimal-other b'.' t.tv_sec (omega arith)),
        cut-append b'\n' (decimal t.tv_nsec) behind (decimal-other b'\n' t.tv_nsec (omega arith)),
        value-decimal t.tv_sec,
        value-decimal t.tv_nsec,
      )
      refl

abbrev pub current_label : Bytes
current_label = codes "current time: "

abbrev pub elapsed_label : Bytes
elapsed_label = codes "elapsed time: "

-- After a read at a whole second, when the time of the last read was not set before, the next
-- read tells the current time and nothing else. Both are from the start, with room for the text,
-- at times before the year 2286.
pub whole_second_forgotten :
    (before now : Timespec) (count : ℕ) (t : Timer)
    → IsShort before
    → IsShort now
    → before.tv_nsec ≡ 0
    → t.t0.tv_nsec ≡ 0
    → 127 ≤ count
    → (r1 : Reading) × (r2 : Reading) × (procfile_read before count 0 true t ≡ some r1)
      × (procfile_read now count 0 true r1.timer ≡ some r2)
      × (parse_line current_label r2.out ≡ some (now, []))
whole_second_forgotten before now count t b n whole z enough = (
  _,
  _,
  read_first before count t b enough z,
  read_first now count _ n enough whole,
  ap (parse_line current_label) (sym (append-nil (first_text now)))
      ∙ parse-line current_label now [],
)
