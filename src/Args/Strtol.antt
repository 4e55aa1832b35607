-- ===== src/Args/Strtol.antt =====
-- `strtol` on numbers as `%ld` prints them.
use grnvs.Prelude.{
  ℕ, suc, ◌-◌, ◌^◌, ◌≡◌, ◌≤◌, refl, Bool, true, false, [], ◌∷◌, arith, ==_ne, if◌then◌else◌, ◌∙◌,
}
use grnvs.Prelude.Int.{ℤ, pos, negsuc, sub_ℕ, InRange}
use grnvs.Memory.{Bytes}
use grnvs.Decimal.{decimal, is_digit, is_space, skip_spaces, saturate}
use grnvs.Decimal.Laws.{AllDigits, AllDigits-decimal, Leads-decimal, scan-decimal}
use grnvs.Args.{skip_digits, starts_with_digit, number, signed, strtol, to_int}

-- `%ld`
unfoldable pub print_long : ℤ → Bytes
print_long (pos n) = decimal n
print_long (negsuc n) = b'-' ∷ decimal (suc n)

skip_digits-all : (s : Bytes) → AllDigits s → skip_digits s ≡ []
unfolding skip_digits
skip_digits-all [] k = refl
skip_digits-all (c ∷ s) (lo, hi, k) =
    let digit : is_digit c ≡ true = ground arith in rw (digit, skip_digits-all s k) refl

starts-decimal : (n : ℕ) → starts_with_digit (decimal n) ≡ true
starts-decimal n =
    let lead = Leads-decimal n in
    let digit : is_digit lead.head ≡ true = ground (arith, lead.digit.0, lead.digit.1) in
    rw lead.split digit

number-decimal :
    (negative : Bool) (whole : Bytes) (n : ℕ)
    → number negative whole (decimal n) ≡ record {
      value = if negative then sub_ℕ 0 (saturate (2 ^ 63) n) else pos (saturate (2 ^ 63 - 1) n);
      rest = [];
      moved = true;
    }
unfolding number
number-decimal negative whole n =
    rw (starts-decimal n, scan-decimal n, skip_digits-all (decimal n) (AllDigits-decimal n)) refl

-- A text that starts with a digit has no space and no sign in front.
signed-digit :
    (whole : Bytes) (c : ℕ) (s : Bytes)
    → b'0' ≤ c
    → c ≤ b'9'
    → signed whole (skip_spaces (c ∷ s)) ≡ number false whole (c ∷ s)
unfolding signed skip_spaces
signed-digit whole c s lo hi =
    let no_space : is_space c ≡ false = ground arith in
    rw (no_space, ==_ne c b'-' (λ x. omega arith), ==_ne c b'+' (λ x. omega arith)) refl

strtol-positive : (n : ℕ) → strtol (decimal n) ≡ number false (decimal n) (decimal n)
unfolding strtol
strtol-positive n =
    let lead = Leads-decimal n in
    rw lead.split
      (signed-digit (lead.head ∷ lead.tail) lead.head lead.tail lead.digit.0 lead.digit.1)

strtol-negative : (n : ℕ) → strtol (b'-' ∷ decimal n) ≡ number true (b'-' ∷ decimal n) (decimal n)
unfolding strtol
strtol-negative n = refl

-- `strtol` reads a `long` back from what `%ld` prints of it, up to the end of the string.
pub strtol-print_long :
    (n : ℤ) → InRange 63 n → strtol (print_long n) ≡ record { value = n; rest = []; moved = true }
unfolding print_long
strtol-print_long (pos n) (hi, lo) =
    let cut : saturate (2 ^ 63 - 1) n ≡ n = ground arith in
    strtol-positive n ∙ number-decimal false (decimal n) n ∙ rw cut refl
strtol-print_long (negsuc n) (hi, lo) =
    let cut : saturate (2 ^ 63) (suc n) ≡ suc n = ground arith in
    let minus : sub_ℕ 0 (suc n) ≡ negsuc n = ground arith in
    strtol-negative (suc n)
    ∙ number-decimal true (b'-' ∷ decimal (suc n)) (suc n)
    ∙ rw (cut, minus) refl

-- An int is kept by the conversion.
pub to_int-same : (n : ℤ) → InRange 31 n → to_int n ≡ n
unfolding to_int
to_int-same (pos n) (hi, lo) = ground arith
to_int-same (negsuc n) (hi, lo) = ground arith
