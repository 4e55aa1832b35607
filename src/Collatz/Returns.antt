-- ===== src/Collatz/Returns.antt =====
-- For which arguments `assignment1` of assignment1/src/assignment1.c returns.
use grnvs.Prelude.{
  ℕ, zero, suc, ◌<◌, ◌≡◌, ◌↔◌, true, false, ◌&&◌, List, [], ◌∷◌, Bool, Bool-cases, inl, inr, refl,
  arith, length, if◌then◌else◌, ◌==◌,
}
use grnvs.Prelude.Int.{ℤ, pos, negsuc, pos_part, InRange}
use grnvs.Collatz.{
  Run, done, overflow, fits_long, is_even, half, triple, incr, is_one, loop, assignment1,
}
use grnvs.Collatz.Laws.{
  print-done, loop-stop, loop-even, loop-odd, if-done, loop-Chain, Chain-assignment1,
  assignment1-never,
}
use grnvs.Collatz.Reach.{Chain, AllLong}

-- What a call for `start` prints: it, and then its 3n + 1 sequence up to the first 1, all of them
-- positive and of type `long`.
abbrev pub Printed : ℤ → List ℤ → Type 0
Printed start out =
    (rest : List ℤ) × (out ≡ start ∷ rest) × (0 < pos_part start) × Chain start rest × AllLong rest

half-long :
    (n : ℤ)
    → 0 < pos_part n
    → InRange 63 n
    → is_even n ≡ true
    → (0 < pos_part (half n)) × InRange 63 (half n)
unfolding half is_even
half-long (pos n) h r e = (ground arith, (omega (arith, r), omega (arith, r)))
half-long (negsuc n) h r e = absurd (omega arith)

next-long :
    (n : ℤ)
    → 0 < pos_part n
    → (fits_long (triple n) && fits_long (incr (triple n))) ≡ true
    → (0 < pos_part (incr (triple n))) × InRange 63 (incr (triple n))
unfolding fits_long triple incr
next-long (pos n) h e = (omega arith, (ground arith, omega arith))
next-long (negsuc n) h e = absurd (omega arith)

if-true : (b : Bool) (r : Run) {out : List ℤ} → (if b then r else overflow []) ≡ done out → b ≡ true
if-true true r h = refl
if-true false r h = cc

loop-AllLong :
    (fuel : ℕ) (n : ℤ) (out : List ℤ)
    → 0 < pos_part n
    → InRange 63 n
    → loop fuel n ≡ done out
    → AllLong out
loop-AllLong zero n out p r h = unfold loop in cc
loop-AllLong (suc fuel) n out p r h = elim (Bool-cases (is_one n)) [
  | inl one ↦ let e : out ≡ [] = cc (loop-stop fuel n one) in rw e tt
  | inr more ↦ elim (Bool-cases (is_even n)) [
    | inl even ↦
        let (rest, e, f) =
          print-done (half n) (loop fuel (half n)) (rw (loop-even fuel n more even) at h) in
        let (positive, fits) = half-long n p r even in
        rw f (positive, fits, loop-AllLong fuel (half n) rest positive fits e)
    | inr odd ↦
        let next = incr (triple n) in
        let round = rw (loop-odd fuel n more odd) at h in
        let (rest, e, f) = print-done next (loop fuel next) (if-done _ _ round) in
        let (positive, fits) = next-long n p (if-true _ _ round) in
        rw f (positive, fits, loop-AllLong fuel next rest positive fits e)
  ]
]

positive-of-returns :
    (fuel : ℕ) (start : ℤ) (out : List ℤ) → assignment1 fuel start ≡ done out → 0 < pos_part start
positive-of-returns fuel start out h = elim (Bool-cases (pos_part start == 0)) [
  | inl z ↦ absurd (assignment1-never fuel start out (ground arith) h)
  | inr positive ↦ ground arith
]

returns-Printed :
    (fuel : ℕ) (start : ℤ) (out : List ℤ)
    → InRange 63 start
    → assignment1 fuel start ≡ done out
    → Printed start out
unfolding assignment1
returns-Printed fuel start out fits h =
    let (rest, e, f) = print-done start (loop fuel start) h in
    let positive = positive-of-returns fuel start out h in
    (rest, f, positive, loop-Chain fuel start rest e, loop-AllLong fuel start rest positive fits e)

-- Some number of rounds is enough for a call with an argument of type `long` to return exactly if the
-- argument is positive and its 3n + 1 sequence reaches 1 through values of type `long`; then it has
-- printed the argument and that sequence, up to its first 1.
pub assignment1-returns :
    (start : ℤ) (out : List ℤ)
    → InRange 63 start
    → ((fuel : ℕ) × (assignment1 fuel start ≡ done out)) ↔ Printed start out
assignment1-returns start out fits = (
  λ (fuel, h). returns-Printed fuel start out fits h,
  λ (rest, e, positive, chain, long). (
    suc (length rest),
    rw e (Chain-assignment1 (suc (length rest)) start rest positive chain long (omega arith)),
  ),
)
