-- ===== src/Collatz/Laws.antt =====
-- What `assignment1` of assignment1/src/assignment1.c prints, and when it returns.
use grnvs.Prelude.{
  ℕ, zero, suc, ◌/◌, ◌<◌, ◌≡◌, ◌∙◌, ◌≢◌, inl, inr, refl, Bool, true, false, ◌&&◌, List, [], ◌∷◌,
  arith, length, ◌==◌, Bool-cases, if◌then◌else◌, ap,
}
use grnvs.Prelude.Int.{ℤ, pos, negsuc, pos_part, ◌+ℤ◌, InRange}
use grnvs.Collatz.{
  Run, done, overflow, out_of_fuel, print, fits_long, is_even, half, triple, incr, is_one, loop,
  assignment1,
}
use grnvs.Collatz.Reach.{Next, Chain, AllLong}

Next-half : (n : ℤ) → is_even n ≡ true → Next n (half n)
unfolding is_even half ◌+ℤ◌
Next-half (pos n) h = inl (ground arith)
Next-half (negsuc n) h = inl (ground arith)

Next-triple : (n : ℤ) → is_even n ≡ false → Next n (incr (triple n))
unfolding is_even triple incr ◌+ℤ◌
Next-triple (pos n) h = inr (pos (n / 2), ground arith, ground arith)
Next-triple (negsuc n) h = inr (negsuc (n / 2), ground arith, ground arith)

pub print-done :
    (m : ℤ) (r : Run) {out : List ℤ}
    → print m r ≡ done out
    → (rest : List ℤ) × (r ≡ done rest) × (out ≡ m ∷ rest)
print-done m (done rest) h = (rest, refl, cc)
print-done m (overflow rest) h = cc
print-done m (out_of_fuel rest) h = cc

is_one-eq : (n : ℤ) → is_one n ≡ true → n ≡ pos 1
unfolding is_one
is_one-eq (pos n) h = ground arith
is_one-eq (negsuc n) h = cc

is_one-ne : (n : ℤ) → is_one n ≡ false → n ≢ pos 1
unfolding is_one
is_one-ne n h e = cc (ap is_one e)

-- One round of the loop, by the tests that it makes.
pub loop-stop : (fuel : ℕ) (n : ℤ) → is_one n ≡ true → loop (suc fuel) n ≡ done []
unfolding loop
loop-stop fuel n h = rw h

pub loop-even :
    (fuel : ℕ) (n : ℤ)
    → is_one n ≡ false
    → is_even n ≡ true
    → loop (suc fuel) n ≡ print (half n) (loop fuel (half n))
unfolding loop
loop-even fuel n h e = rw (h, e)

pub loop-odd :
    (fuel : ℕ) (n : ℤ)
    → is_one n ≡ false
    → is_even n ≡ false
    → loop (suc fuel) n ≡ (
        if fits_long (triple n) && fits_long (incr (triple n))
        then print (incr (triple n)) (loop fuel (incr (triple n)))
        else overflow [])
unfolding loop
loop-odd fuel n h e = rw (h, e)

pub if-done :
    (b : Bool) (r : Run) {out : List ℤ} → (if b then r else overflow []) ≡ done out → r ≡ done out
if-done true r h = h
if-done false r h = cc

pub loop-Chain : (fuel : ℕ) (n : ℤ) (out : List ℤ) → loop fuel n ≡ done out → Chain n out
loop-Chain zero n out h = unfold loop in cc
loop-Chain (suc fuel) n out h = elim (Bool-cases (is_one n)) [
  | inl one ↦ let e : out ≡ [] = cc (loop-stop fuel n one) in rw e (is_one-eq n one)
  | inr more ↦ elim (Bool-cases (is_even n)) [
    | inl even ↦
        let (rest, e, f) =
          print-done (half n) (loop fuel (half n)) (rw (loop-even fuel n more even) at h) in
        rw f (is_one-ne n more, Next-half n even, loop-Chain fuel (half n) rest e)
    | inr odd ↦
        let next = incr (triple n) in
        let (rest, e, f) =
          print-done next (loop fuel next) (if-done _ _ (rw (loop-odd fuel n more odd) at h)) in
        rw f (is_one-ne n more, Next-triple n odd, loop-Chain fuel next rest e)
  ]
]

even-of-Next : (n m : ℤ) → n ≡ m +ℤ m → (is_even n ≡ true) × (half n ≡ m)
unfolding is_even half ◌+ℤ◌
even-of-Next (pos n) (pos m) e = (ground arith, ground arith)
even-of-Next (pos n) (negsuc m) e = (ground arith, ground arith)
even-of-Next (negsuc n) (pos m) e = (ground arith, ground arith)
even-of-Next (negsuc n) (negsuc m) e = (ground arith, ground arith)

odd-of-Next :
    (n k m : ℤ)
    → 0 < pos_part n
    → n ≡ k +ℤ k +ℤ pos 1
    → m ≡ n +ℤ n +ℤ n +ℤ pos 1
    → (is_even n ≡ false) × (incr (triple n) ≡ m)
unfolding is_even triple incr ◌+ℤ◌
odd-of-Next (pos n) (pos k) m h e f = (ground arith, ground arith)
odd-of-Next (pos n) (negsuc k) m h e f = (ground arith, ground arith)
odd-of-Next (negsuc n) k m h e f = absurd (omega arith)

fits-of-InRange :
    (n : ℤ)
    → 0 < pos_part n
    → InRange 63 (incr (triple n))
    → (fits_long (triple n) && fits_long (incr (triple n))) ≡ true
unfolding fits_long triple incr
fits-of-InRange (pos n) h r = ground arith
fits-of-InRange (negsuc n) h r = absurd (omega arith)

is_one-of-ne : (n : ℤ) → n ≢ pos 1 → is_one n ≡ false
unfolding is_one
is_one-of-ne (pos n) h = elim (Bool-cases (n == 1)) [
  | inl e ↦ absurd (h (ground arith))
  | inr e ↦ e
]
is_one-of-ne (negsuc n) h = refl

Chain-loop :
    (fuel : ℕ) (n : ℤ) (out : List ℤ)
    → 0 < pos_part n
    → Chain n out
    → AllLong out
    → length out < fuel
    → loop fuel n ≡ done out
Chain-loop zero n out h c a f = absurd (omega arith)
Chain-loop (suc fuel) n [] h c a f = loop-stop fuel n (unfold is_one in rw c)
Chain-loop (suc fuel) n (m ∷ ms) h (ne, inl e, c) (m_pos, fits, a) f =
    let (even, e') = even-of-Next n m e in
    loop-even fuel n (is_one-of-ne n ne) even
    ∙ rw (e', Chain-loop fuel m ms m_pos c a (omega arith))
Chain-loop (suc fuel) n (m ∷ ms) h (ne, inr (k, e, e'), c) (m_pos, fits, a) f =
    let (odd, e'') = odd-of-Next n k m h e e' in
    loop-odd fuel n (is_one-of-ne n ne) odd
    ∙ rw (fits-of-InRange n h (rw e'' fits), e'', Chain-loop fuel m ms m_pos c a (omega arith))

-- A call that returns has printed the argument and then the 3n + 1 sequence behind it, up to its
-- first 1 and no further.
assignment1-Chain :
    (fuel : ℕ) (start : ℤ) (out : List ℤ)
    → assignment1 fuel start ≡ done out
    → (rest : List ℤ) × (out ≡ start ∷ rest) × Chain start rest
unfolding assignment1
assignment1-Chain fuel start out h =
    let (rest, e, f) = print-done start (loop fuel start) h in
    (rest, f, loop-Chain fuel start rest e)

-- For a positive argument whose 3n + 1 sequence reaches 1 through values of type `long`, a call
-- returns, and prints the argument and that sequence, whenever the fuel exceeds its length.
pub Chain-assignment1 :
    (fuel : ℕ) (start : ℤ) (rest : List ℤ)
    → 0 < pos_part start
    → Chain start rest
    → AllLong rest
    → length rest < fuel
    → assignment1 fuel start ≡ done (start ∷ rest)
unfolding assignment1
Chain-assignment1 fuel start rest h c a f = rw (Chain-loop fuel start rest h c a f)

half-nonpos : (n : ℤ) → pos_part n ≡ 0 → pos_part (half n) ≡ 0
unfolding half
half-nonpos (pos n) h = omega arith
half-nonpos (negsuc n) h = ground arith

next-nonpos : (n : ℤ) → pos_part n ≡ 0 → is_even n ≡ false → pos_part (incr (triple n)) ≡ 0
unfolding triple incr is_even
next-nonpos (pos n) h e = ground arith
next-nonpos (negsuc n) h e = ground arith

print-ne-done :
    (m : ℤ) (r : Run) → ((out : List ℤ) → r ≢ done out) → (out : List ℤ) → print m r ≢ done out
print-ne-done m r never out h = let (rest, e, _) = print-done m r h in never rest e

loop-never : (fuel : ℕ) (n : ℤ) (out : List ℤ) → pos_part n ≡ 0 → loop fuel n ≢ done out
loop-never zero n out z h = unfold loop in cc
loop-never (suc fuel) n out z h =
    let more : is_one n ≡ false = unfold is_one in ground arith in
    elim (Bool-cases (is_even n)) [
      | inl even ↦
          let (rest, e, _) =
            print-done (half n) (loop fuel (half n)) (rw (loop-even fuel n more even) at h) in
          loop-never fuel (half n) rest (half-nonpos n z) e
      | inr odd ↦
          let next = incr (triple n) in
          let (rest, e, _) =
            print-done next (loop fuel next) (if-done _ _ (rw (loop-odd fuel n more odd) at h)) in
          loop-never fuel next rest (next-nonpos n z odd) e
    ]

-- A call with an argument below 1 never returns, however many rounds it is given: the loop goes
-- round for ever or a value overflows.
pub assignment1-never :
    (fuel : ℕ) (start : ℤ) (out : List ℤ) → pos_part start ≡ 0 → assignment1 fuel start ≢ done out
unfolding assignment1
assignment1-never fuel start out z h =
    let (rest, e, _) = print-done start (loop fuel start) h in loop-never fuel start rest z e
