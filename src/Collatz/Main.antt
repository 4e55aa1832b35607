-- ===== src/Collatz/Main.antt =====
-- assignment1/src/assignment1.c, `main`: the argument parser and `assignment1`.
use grnvs.Prelude.{
  ◌↔◌, ℕ, false, sym, ◌≡◌, ◌<◌, ◌≤◌, refl, arith, List, [], ◌∷◌, length, leb, ap, ◌∙◌,
}
use grnvs.Prelude.Int.{ℤ, pos_part, InRange}
use grnvs.Args.{
  Word, argument, Program, message, shown_usage, ran, parsed, failed, usage, argp_parse,
}
use grnvs.Args.Strtol.{print_long, strtol-print_long}
use grnvs.Collatz.{Run, done, assignment1}
use grnvs.Collatz.Laws.{Chain-assignment1}
use grnvs.Collatz.Returns.{Printed, assignment1-returns}
use grnvs.Collatz.Reach.{Chain, AllLong}
use grnvs.Collatz.Arguments.{parse_opt, parse_args}

unfoldable pub main : (fuel argc : ℕ) → List Word → Program Run
unfolding parse_args
main fuel argc words = elim (parse_args argc words) [
  | parsed args ↦ ran (assignment1 fuel args.start)
  | failed ↦ message
  | usage ↦ shown_usage
]

-- A number is parsed as it was printed.
parse_args-number :
    (argc : ℕ) (start : ℤ)
    → 2 ≤ argc
    → InRange 63 start
    → parse_args argc (argument (print_long start) ∷ []) ≡ parsed (record { start = start })
unfolding parse_args parse_opt
parse_args-number argc start two fits =
    let more : leb argc 1 ≡ false = ground arith in
    rw (more, strtol-print_long start fits, argp_parse) refl

-- Started with a positive `long` as `%ld` prints it, whose 3n + 1 sequence reaches 1 through values
-- of type `long`, the program prints the number and that sequence, and ends.
main-Chain :
    (fuel argc : ℕ) (start : ℤ) (rest : List ℤ)
    → 2 ≤ argc
    → InRange 63 start
    → 0 < pos_part start
    → Chain start rest
    → AllLong rest
    → length rest < fuel
    → main fuel argc (argument (print_long start) ∷ []) ≡ ran (done (start ∷ rest))
unfolding main
main-Chain fuel argc start rest two fits positive chain long enough =
    rw (parse_args-number argc start two fits, main)
      (ap ran (Chain-assignment1 fuel start rest positive chain long enough))

main-number :
    (fuel argc : ℕ) (start : ℤ)
    → 2 ≤ argc
    → InRange 63 start
    → main fuel argc (argument (print_long start) ∷ []) ≡ ran (assignment1 fuel start)
unfolding main
main-number fuel argc start two fits = rw (parse_args-number argc start two fits, main) refl

-- Started with a `long` as `%ld` prints it, the program comes to its end exactly if the number is
-- positive and its 3n + 1 sequence reaches 1 through values of type `long`; then it has printed the
-- number and that sequence, up to its first 1.
pub main-returns :
    (argc : ℕ) (start : ℤ) (out : List ℤ)
    → 2 ≤ argc
    → InRange 63 start
    → ((fuel : ℕ) × (main fuel argc (argument (print_long start) ∷ []) ≡ ran (done out)))
      ↔ Printed start out
main-returns argc start out two fits =
    let loop = assignment1-returns start out fits in
    (
      λ (fuel, h). loop.0 (fuel, cc (sym (main-number fuel argc start two fits) ∙ h)),
      λ printed.
          let (fuel, h) = loop.1 printed in (fuel, main-number fuel argc start two fits ∙ ap ran h),
    )
