-- ===== src/Collatz.antt =====
-- assignment1/src/assignment1.c: `assignment1` prints the 3n + 1 sequence of its argument.
-- `long` is 64 bits wide; a value that leaves its range is the outcome `overflow`, which C leaves
-- undefined. The `while` loop runs on fuel, one unit a round.
pub mod Laws
pub mod Reach
pub mod Returns
pub mod Arguments
pub mod Main
mod Tests
use grnvs.Prelude.{
  ℕ, zero, suc, ◌+◌, ◌-◌, ◌*◌, ◌/◌, ◌%◌, ◌^◌, ◌≡◌, refl, Bool, true, false, ◌&&◌, List, [], ◌∷◌,
  leb, ltb, ◌==◌, if◌then◌else◌,
}
use grnvs.Prelude.Int.{ℤ, pos, negsuc, pos_part, neg_part}

-- What a call prints, and how it ends.
pub data Run : Type 0 where
  done : List ℤ → Run
  overflow : List ℤ → Run
  out_of_fuel : List ℤ → Run

-- `printf("%ld\n", start)` in front of what a run prints later.
abbrev pub print : ℤ → Run → Run
print n (done out) = done (n ∷ out)
print n (overflow out) = overflow (n ∷ out)
print n (out_of_fuel out) = out_of_fuel (n ∷ out)

-- The number as a `long`.
pub fits_long : ℤ → Bool
fits_long n = ltb (pos_part n) (2 ^ 63) && leb (neg_part n) (2 ^ 63)

-- `start % 2 == 0`
pub is_even : ℤ → Bool
is_even n = (pos_part n + neg_part n) % 2 == 0

-- `start / 2`, rounded towards zero
pub half : ℤ → ℤ
half (pos n) = pos (n / 2)
half (negsuc n) = if suc n / 2 == 0 then pos 0 else negsuc (suc n / 2 - 1)

-- `3*start`
pub triple : ℤ → ℤ
triple (pos n) = pos (3 * n)
triple (negsuc n) = negsuc (3 * n + 2)

-- `n + 1`
pub incr : ℤ → ℤ
incr (pos n) = pos (n + 1)
incr (negsuc n) = if n == 0 then pos 0 else negsuc (n - 1)

pub is_one : ℤ → Bool
is_one n = pos_part n == 1

-- The loop, on fuel: the product and the sum of an odd round must each be a `long`.
pub loop : ℕ → ℤ → Run
loop zero start = out_of_fuel []
loop (suc fuel) start =
    let even_rest = print (half start) (loop fuel (half start)) in
    let next = incr (triple start) in
    let odd_rest = print next (loop fuel next) in
    if is_one start
    then done []
    else if is_even start
    then even_rest
    else if fits_long (triple start) && fits_long next
    then odd_rest
    else overflow []

pub assignment1 : ℕ → ℤ → Run
assignment1 fuel start = print start (loop fuel start)
