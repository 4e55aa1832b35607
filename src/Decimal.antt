-- ===== src/Decimal.antt =====
-- Decimal numbers as assignment4.c prints, counts and reads them: `sprintf` with `%ld`, `countDigits`
-- and `atol`. Each loop runs on fuel that its caller gives.
pub mod Laws
use grnvs.Prelude.{
  ℕ, zero, suc, ◌+◌, ◌-◌, ◌*◌, ◌/◌, ◌%◌, ◌^◌, Bool, true, false, ◌&&◌, ◌||◌, List, [], ◌∷◌, ◌==◌,
  ltb, leb, if◌then◌else◌,
}
use grnvs.Memory.{Bytes}

-- The digits of a number that is not negative, as `%ld` prints them.
unfoldable pub digits_loop : ℕ → ℕ → Bytes → Bytes
digits_loop zero n out = out
digits_loop (suc fuel) n out =
    let rest = digits_loop fuel (n / 10) ((b'0' + n % 10) ∷ out) in
    if n / 10 == 0 then (b'0' + n % 10) ∷ out else rest

unfoldable pub decimal : ℕ → Bytes
unfolding digits_loop
decimal n = digits_loop (suc n) n []

-- `while ((c /= 10) != 0) ++digits;`
unfoldable pub count_loop : ℕ → ℕ → ℕ → ℕ
count_loop zero c digits = digits
count_loop (suc fuel) c digits =
    let rest = count_loop fuel (c / 10) (digits + 1) in if c / 10 == 0 then digits else rest

-- `countDigits`, a `u_int16_t`
unfoldable pub count_digits : ℕ → ℕ
unfolding count_loop
count_digits c = count_loop (suc c) c 1 % 2 ^ 16

abbrev pub is_digit : ℕ → Bool
is_digit c = leb b'0' c && leb c b'9'

-- The value of the leading digits behind `n`.
unfoldable pub scan : ℕ → Bytes → ℕ
scan n [] = n
scan n (c ∷ s) = let rest = scan (n * 10 + (c - b'0')) s in if is_digit c then rest else n

-- `isspace` in the C locale
abbrev pub is_space : ℕ → Bool
is_space c = c == 32 || (leb 9 c && leb c 13)

unfoldable pub skip_spaces : Bytes → Bytes
skip_spaces [] = []
skip_spaces (c ∷ s) = let rest = skip_spaces s in if is_space c then rest else c ∷ s

-- The magnitude, cut to the range of `long` as `strtol` does.
abbrev pub saturate : ℕ → ℕ → ℕ
saturate limit n = if ltb limit n then limit else n

unfoldable pub signed_value : Bytes → ℕ
unfolding scan
signed_value [] = 0
signed_value (c ∷ s) =
    if c == b'-'
    then (2 ^ 64 - saturate (2 ^ 63) (scan 0 s)) % 2 ^ 64
    else if c == b'+'
    then saturate (2 ^ 63 - 1) (scan 0 s)
    else saturate (2 ^ 63 - 1) (scan 0 (c ∷ s))

-- `(size_t)atol(s)`
unfoldable pub atol : Bytes → ℕ
unfolding skip_spaces signed_value
atol s = signed_value (skip_spaces s)
