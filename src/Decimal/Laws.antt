-- ===== src/Decimal/Laws.antt =====
-- countDigits and atol of assignment4.c against the printed number.
use grnvs.Prelude.{
  ℕ, zero, suc, ◌+◌, ◌*◌, ◌/◌, ◌%◌, ◌^◌, ◌≡◌, ◌≢◌, ◌<◌, ◌≤◌, refl, true, false, [], ◌∷◌, arith,
  ◌==◌, ==_ne, leb, if◌then◌else◌, length, Bool-cases, inl, inr, ap, ◌∙◌, sym,
}
use grnvs.Memory.{Bytes}
use grnvs.Memory.Strings.{Lacks}
use grnvs.Decimal.{
  digits_loop, decimal, count_loop, count_digits, is_digit, is_space, scan, skip_spaces,
  signed_value, atol,
}

length-digits_loop :
    (fuel n : ℕ) (out : Bytes)
    → n < fuel
    → length (digits_loop fuel n out) ≡ count_loop fuel n (length out + 1)
unfolding digits_loop count_loop
length-digits_loop zero n out h = absurd (omega arith)
length-digits_loop (suc fuel) n out h = elim (Bool-cases (n / 10 == 0)) [
  | inl last ↦ rw last (omega arith)
  | inr more ↦ rw more (
      length-digits_loop fuel (n / 10) ((b'0' + n % 10) ∷ out) (ground arith)
      ∙ ap (λ k. count_loop fuel (n / 10) k) (omega arith))
]

-- `countDigits` is the number of characters that `%ld` prints, as a 16-bit number.
count_digits-length : (n : ℕ) → count_digits n ≡ length (decimal n) % 2 ^ 16
unfolding count_digits decimal
count_digits-length n = ap (λ k. k % 2 ^ 16) (sym (length-digits_loop (suc n) n [] (omega arith)))

count_loop-small :
    (fuel n d : ℕ)
    → n < 10000
    → n < fuel
    → count_loop fuel n d
      ≡ d + (if leb 1000 n then 3 else if leb 100 n then 2 else if leb 10 n then 1 else 0)
unfolding count_loop
count_loop-small zero n d h f = absurd (omega arith)
count_loop-small (suc fuel) n d h f = ground (arith, count_loop-small fuel (n / 10) (d + 1))

-- The digits of a number below 10000.
pub count_digits-small :
    (n : ℕ)
    → n < 10000
    → count_digits n
      ≡ 1 + (if leb 1000 n then 3 else if leb 100 n then 2 else if leb 10 n then 1 else 0)
unfolding count_digits
count_digits-small n h = ground (arith, count_loop-small (suc n) n 1 h (omega arith))

pub length-decimal-small : (n : ℕ) → n < 10000 → length (decimal n) ≡ count_digits n
unfolding decimal count_digits
length-decimal-small n h = ground (
  arith,
  length-digits_loop (suc n) n [] (omega arith),
  count_loop-small (suc n) n 1 h (omega arith),
)

-- The numbers of `suc k` digits at most.
abbrev limit : ℕ → ℕ
limit zero = 10
limit (suc k) = 10 * limit k

length-loop_le :
    (k fuel n : ℕ) (out : Bytes)
    → n < limit k
    → length (digits_loop fuel n out) ≤ length out + suc k
unfolding digits_loop
length-loop_le k zero n out h = omega arith
length-loop_le zero (suc fuel) n out h = ground arith
length-loop_le (suc k) (suc fuel) n out h =
    let rest : length (digits_loop fuel (n / 10) ((b'0' + n % 10) ∷ out))
        ≤ suc (length out) + suc k =
      length-loop_le k fuel (n / 10) ((b'0' + n % 10) ∷ out) (omega (arith, h)) in
    ground (arith, rest)

-- A port number has five digits at most.
pub length-decimal_port : (n : ℕ) → n < 65536 → length (decimal n) ≤ 5
unfolding decimal
length-decimal_port n h = length-loop_le 4 (suc n) n [] (omega arith)

abbrev pub AllDigits : Bytes → Type 0
AllDigits [] = Unit {0}
AllDigits (c ∷ s) = (b'0' ≤ c) × (c ≤ b'9') × AllDigits s

pub AllDigits-Lacks : (c : ℕ) (s : Bytes) → (is_digit c ≡ false) → AllDigits s → Lacks c s
AllDigits-Lacks c [] h k = tt
AllDigits-Lacks c (b ∷ s) h (lo, hi, k) = (ground arith, AllDigits-Lacks c s h k)

AllDigits-loop : (fuel n : ℕ) (out : Bytes) → AllDigits out → AllDigits (digits_loop fuel n out)
unfolding digits_loop
AllDigits-loop zero n out k = k
AllDigits-loop (suc fuel) n out k = elim (Bool-cases (n / 10 == 0)) [
  | inl last ↦ rw (last, digits_loop) (omega arith, omega arith, k)
  | inr more ↦
      rw (more, digits_loop)
        (AllDigits-loop fuel (n / 10) ((b'0' + n % 10) ∷ out) (omega arith, omega arith, k))
]

pub AllDigits-decimal : (n : ℕ) → AllDigits (decimal n)
unfolding decimal
AllDigits-decimal n = AllDigits-loop (suc n) n [] tt

-- The first digit, which is not 0 unless the number is.
pub record Leads (n : ℕ) (s : Bytes) : Type 0 where
  pub head : ℕ
  pub tail : Bytes
  pub split : s ≡ head ∷ tail
  pub digit : (b'0' ≤ head) × (head ≤ b'9')
  pub nonzero : 0 < n → head ≢ b'0'

Leads-loop : (fuel n : ℕ) (out : Bytes) → n < fuel → Leads n (digits_loop fuel n out)
unfolding digits_loop
Leads-loop zero n out h = absurd (omega arith)
Leads-loop (suc fuel) n out h = elim (Bool-cases (n / 10 == 0)) [
  | inl last ↦
      rw (last, digits_loop)
        (record {
          head = b'0' + n % 10;
          tail = out;
          split = refl;
          digit = (omega arith, omega arith);
          nonzero = λ p. ground arith;
        })
  | inr more ↦
      let lead = Leads-loop fuel (n / 10) ((b'0' + n % 10) ∷ out) (ground arith) in
      rw (more, digits_loop)
        (record {
          head = lead.head;
          tail = lead.tail;
          split = lead.split;
          digit = lead.digit;
          nonzero = λ p. lead.nonzero (ground arith);
        })
]

pub Leads-decimal : (n : ℕ) → Leads n (decimal n)
unfolding decimal
Leads-decimal n = Leads-loop (suc n) n [] (omega arith)

scan-digit : (m d : ℕ) (out : Bytes) → d < 10 → scan m ((b'0' + d) ∷ out) ≡ scan (m * 10 + d) out
unfolding scan
scan-digit m d out h =
    let digit : is_digit (b'0' + d) ≡ true = ground arith in
    rw digit (ap (λ k. scan k out) (omega arith))

scan-loop : (fuel n : ℕ) (out : Bytes) → n < fuel → scan 0 (digits_loop fuel n out) ≡ scan n out
unfolding digits_loop
scan-loop zero n out h = absurd (omega arith)
scan-loop (suc fuel) n out h = elim (Bool-cases (n / 10 == 0)) [
  | inl last ↦
      rw last (scan-digit 0 (n % 10) out (omega arith) ∙ ap (λ k. scan k out) (ground arith))
  | inr more ↦ rw more (
      scan-loop fuel (n / 10) ((b'0' + n % 10) ∷ out) (ground arith)
      ∙ (scan-digit (n / 10) (n % 10) out (omega arith) ∙ ap (λ k. scan k out) (omega arith)))
]

scan-nil : (n : ℕ) → scan n [] ≡ n
unfolding scan
scan-nil n = refl

pub scan-decimal : (n : ℕ) → scan 0 (decimal n) ≡ n
unfolding decimal
scan-decimal n = scan-loop (suc n) n [] (omega arith) ∙ scan-nil n

atol-digit :
    (c n : ℕ) (s : Bytes) → b'0' ≤ c → c ≤ b'9' → n < 2 ^ 63 → scan 0 (c ∷ s) ≡ n → atol (c ∷ s) ≡ n
unfolding skip_spaces signed_value atol
atol-digit c n s lo hi h e =
    let no_space : is_space c ≡ false = ground arith in
    rw (no_space, ==_ne c b'-' (λ x. omega arith), ==_ne c b'+' (λ x. omega arith))
      (rw e (ground arith))

-- A printed number is read back, where it is a `long`.
pub atol-decimal : (n : ℕ) → n < 2 ^ 63 → atol (decimal n) ≡ n
atol-decimal n h =
    let lead = Leads-decimal n in
    rw lead.split (
      atol-digit lead.head n lead.tail lead.digit.0 lead.digit.1 h
        (ap (λ s. scan 0 s) (sym lead.split) ∙ scan-decimal n))
