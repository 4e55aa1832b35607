-- ===== src/Collatz/Tests.antt =====
-- Runs of `assignment1` of assignment1/src/assignment1.c, and its theorems at concrete arguments.
use grnvs.Prelude.{ℕ, ◌↔◌, ◌≡◌, ◌^◌, ◌-◌, refl, inl, inr, List, [], ◌∷◌, arith}
use grnvs.Prelude.Int.{ℤ, pos, ◌+ℤ◌}
use grnvs.Collatz.{
  done, overflow, fits_long, is_even, half, triple, incr, is_one, loop, assignment1,
}
use grnvs.Collatz.Main.{main, main-returns}
use grnvs.Args.{argument, ran}
use grnvs.Args.Strtol.{print_long}
use grnvs.Collatz.Reach.{Chain}
use grnvs.Collatz.Returns.{Printed}

abbrev behind_three : List ℤ
behind_three = pos 10 ∷ pos 5 ∷ pos 16 ∷ pos 8 ∷ pos 4 ∷ pos 2 ∷ pos 1 ∷ []

run_three : assignment1 20 (pos 3) ≡ done (pos 3 ∷ behind_three)
unfolding assignment1 loop is_one is_even half triple incr fits_long
run_three = refl

run_wide : assignment1 20 (pos (2 ^ 63 - 1)) ≡ overflow (pos (2 ^ 63 - 1) ∷ [])
unfolding assignment1 loop is_one is_even half triple incr fits_long
run_wide = refl

three-Chain : Chain (pos 3) behind_three
unfolding ◌+ℤ◌
three-Chain = (
  cc,
  inr (pos 1, refl, refl),
  (
    cc,
    inl refl,
    (
      cc,
      inr (pos 2, refl, refl),
      (cc, inl refl, (cc, inl refl, (cc, inl refl, (cc, inl refl, refl)))),
    ),
  ),
)

main-returns_example :
    ((fuel : ℕ) × (main fuel 2 (argument (print_long (pos 3)) ∷ [])
        ≡ ran (done (pos 3 ∷ behind_three))))
    ↔ Printed (pos 3) (pos 3 ∷ behind_three)
main-returns_example =
    main-returns 2 (pos 3) (pos 3 ∷ behind_three) (omega arith) (omega arith, omega arith)

-- Both sides of it hold.
three-Printed : Printed (pos 3) (pos 3 ∷ behind_three)
three-Printed = (behind_three, refl, omega arith, three-Chain, omega arith)
