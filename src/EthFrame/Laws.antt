-- ===== src/EthFrame/Laws.antt =====
-- The field functions of assignment2/src/assignment2.c against plain descriptions.
use mathlib.Core.Bool.{Bool, true, ◌&&◌}
use grnvs.Prelude.{
  ℕ, zero, suc, ◌+◌, ◌%◌, ◌<◌, ◌≡◌, ◌↔◌, refl, [], ◌∷◌, arith, ◌==◌, ==_iff, if◌then◌else◌, length,
  ap₂, Bool-cases, inl, inr,
}
use grnvs.EthFrame.{Bytes, is_multicast, macs_loop, macs_equal}

-- Every value below a bound passes a test.
all_below : ℕ → (ℕ → Bool) → Bool
all_below zero test = true
all_below (suc n) test = test n && all_below n test

all_below_sound :
    (n : ℕ) (test : ℕ → Bool) (x : ℕ) → all_below n test ≡ true → x < n → test x ≡ true
unfolding all_below
all_below_sound zero test x h lt = absurd (omega arith)
all_below_sound (suc n) test x h lt = ground (arith, all_below_sound n test x)

is_multicast_table : all_below 256 (λ x. is_multicast x == x % 2) ≡ true
unfolding all_below is_multicast
is_multicast_table = refl

-- `isMulticast` of a byte is its lowest bit, the group bit of an address.
is_multicast_lem : (x : ℕ) → x < 256 → is_multicast x ≡ x % 2
is_multicast_lem x h =
    (==_iff _ _).0 (all_below_sound 256 (λ x. is_multicast x == x % 2) x is_multicast_table h)

macs_loop-cons :
    (left i a b : ℕ) (x y : Bytes) → macs_loop left (suc i) (a ∷ x) (b ∷ y) ≡ macs_loop left i x y
unfolding macs_loop
macs_loop-cons zero i a b x y = refl
macs_loop-cons (suc left) i a b x y =
    let e : suc i + 1 ≡ suc (i + 1) = omega arith in rw (e, macs_loop-cons left (i + 1) a b x y)

macs_loop-cons_zero :
    (left a b : ℕ) (x y : Bytes)
    → macs_loop (suc left) 0 (a ∷ x) (b ∷ y) ≡ (if a == b then macs_loop left 0 x y else 0)
unfolding macs_loop
macs_loop-cons_zero left a b x y =
    let e : ◌≡◌ {A = ℕ} (0 + 1) (suc 0) = omega arith in rw (macs_loop-cons left 0 a b x y)

macs_loop-eq :
    (n : ℕ) (x y : Bytes) → length x ≡ n → length y ≡ n → (macs_loop n 0 x y ≡ 1) ↔ (x ≡ y)
macs_loop-eq zero [] [] h k = (λ _. refl, λ _. unfold macs_loop in refl)
macs_loop-eq zero [] (b ∷ y) h k = absurd (omega arith)
macs_loop-eq zero (a ∷ x) y h k = absurd (omega arith)
macs_loop-eq (suc n) [] y h k = absurd (omega arith)
macs_loop-eq (suc n) (a ∷ x) [] h k = absurd (omega arith)
macs_loop-eq (suc n) (a ∷ x) (b ∷ y) h k =
    let (there, back) = macs_loop-eq n x y (omega arith) (omega arith) in
    elim (Bool-cases (a == b)) [
      | inl same ↦
          let e : a ≡ b = (==_iff a b).0 same in
          rw (macs_loop-cons_zero n a b x y, same) (λ one. ap₂ ◌∷◌ e (there one), λ eq. back (cc))
      | inr apart ↦
          rw (macs_loop-cons_zero n a b x y, apart) (λ one. ground arith, λ eq. ground arith)
    ]

-- `macsEqual` of two 6-byte addresses answers 1 exactly when they are the same bytes.
macs_equal_iff : (x y : Bytes) → length x ≡ 6 → length y ≡ 6 → (macs_equal x y ≡ 1) ↔ (x ≡ y)
unfolding macs_equal
macs_equal_iff x y h k = macs_loop-eq 6 x y h k
