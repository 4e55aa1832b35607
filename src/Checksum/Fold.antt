-- ===== src/Checksum/Fold.antt =====
-- The carry loop of icmp6_checksum: it ends, and leaves the sum's residue modulo 65535.
use grnvs.Prelude.{
  ℕ, zero, suc, ◌+◌, ◌-◌, ◌/◌, ◌%◌, ◌^◌, ◌<◌, ◌≤◌, ◌≡◌, refl, ap, some, arith, ◌==◌, Bool-cases,
  inl, inr, ◌∙◌,
}
use grnvs.Checksum.{carry}

-- The ones' complement sum of 16 bits that a positive sum folds to, in closed form.
unfoldable pub ones_fold : ℕ → ℕ
ones_fold zero = 0
ones_fold (suc t) = 1 + t % 65535

ones_fold-small : (t : ℕ) → t < 65536 → ones_fold t ≡ t
unfolding ones_fold
ones_fold-small zero h = refl
ones_fold-small (suc t) h = omega arith

ones_fold-step : (t : ℕ) → 65536 ≤ t → ones_fold (t / 2 ^ 16 + t % 2 ^ 16) ≡ ones_fold t
unfolding ones_fold
ones_fold-step zero h = absurd (omega arith)
ones_fold-step (suc t) h =
    let u = suc t / 65536 + suc t % 65536 in
    let e : u ≡ suc (u - 1) = omega arith in rw e (omega arith)

-- With more fuel than the sum the loop ends with the folded sum.
pub carry-ones_fold : (fuel t : ℕ) → t < fuel → carry fuel t ≡ some (ones_fold t)
unfolding carry
carry-ones_fold zero t h = absurd (omega arith)
carry-ones_fold (suc fuel) t h = elim (Bool-cases (t / 2 ^ 16 == 0)) [
  | inl fits ↦ rw fits (ap some (omega (arith, ones_fold-small t (ground arith))))
  | inr more ↦
      let large : 65536 ≤ t = ground arith in
      rw more (
        carry-ones_fold fuel (t / 2 ^ 16 + t % 2 ^ 16) (omega arith)
        ∙ ap some (ones_fold-step t large))
]
