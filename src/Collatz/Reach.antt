-- ===== src/Collatz/Reach.antt =====
-- The 3n + 1 sequence as a relation on the integers, independent of the loop of assignment1.c.
use grnvs.Prelude.{◌≡◌, ◌≢◌, ◌⊎◌, List, [], ◌∷◌, ◌<◌}
use grnvs.Prelude.Int.{ℤ, pos, pos_part, ◌+ℤ◌, InRange}

-- `m` follows `n`: `n` is twice `m`, or `n` is odd and `m` is 3n + 1.
abbrev pub Next : ℤ → ℤ → Type 0
Next n m = (n ≡ m +ℤ m) ⊎ ((k : ℤ) × (n ≡ k +ℤ k +ℤ pos 1) × (m ≡ n +ℤ n +ℤ n +ℤ pos 1))

-- `ms` is the sequence behind `n`, up to its first 1.
abbrev pub Chain : ℤ → List ℤ → Type 0
Chain n [] = n ≡ pos 1
Chain n (m ∷ ms) = (n ≢ pos 1) × Next n m × Chain m ms

-- Every number of the list is positive and a `long`.
abbrev pub AllLong : List ℤ → Type 0
AllLong [] = Unit {0}
AllLong (m ∷ ms) = (0 < pos_part m) × InRange 63 m × AllLong ms
