-- ===== src/Hexdump.antt =====
-- assignment2/libraw/src/hexdump.c: `hexdump2` prints bytes into its static buffer of 65536 bytes.
-- The buffer keeps what an earlier call left. `len` is not negative here and below 2^32, and the bytes
-- to print are at least `len`.
pub mod Laws
pub mod Text
pub mod Rows
pub mod Buffer
mod Tests
use grnvs.Prelude.{
  ℕ, zero, suc, ◌+◌, ◌-◌, ◌/◌, ◌%◌, Bool, true, false, ◌&&◌, not, Option, none, some, List, [], ◌∷◌,
  ◌++◌, ◌==◌, ltb, if◌then◌else◌, length, get_or,
}
use grnvs.Memory.{Bytes, write_at}

-- sizeof(str)
abbrev pub str_size : ℕ
str_size = 65536

unfoldable pub hex_digit : ℕ → ℕ
hex_digit d = if ltb d 10 then b'0' + d else b'a' + (d - 10)

-- `%.<width>x` of a number below 16^digits.
unfoldable pub hex_loop : (digits width n : ℕ) → Bytes → Bytes
unfolding hex_digit
hex_loop zero width n out = out
hex_loop (suc digits) width n out =
    let rest = hex_loop digits (width - 1) (n / 16) (hex_digit (n % 16) ∷ out) in
    if width == 0 && n == 0 then out else rest

-- `%.4x` and `%.2x` of an `unsigned int`, which has at most 8 digits.
abbrev pub hex : (width n : ℕ) → Bytes
hex width n = hex_loop 8 width n []

-- `p += sprintf(str + p, …)` of a text: the buffer and `p`.
unfoldable pub put : (text : Bytes) → Bytes × ℕ → Option (Bytes × ℕ)
put text (str, p) = elim (write_at p (text ++ 0 ∷ []) str) [
  | none ↦ none
  | some str ↦ some (str, p + length text)
]

-- `str[p++] = '\n';`
unfoldable pub put_newline : Bytes × ℕ → Option (Bytes × ℕ)
put_newline (str, p) = elim (write_at p (10 ∷ []) str) [
  | none ↦ none
  | some str ↦ some (str, p + 1)
]

abbrev pub bind : Option (Bytes × ℕ) → (Bytes × ℕ → Option (Bytes × ℕ)) → Option (Bytes × ℕ)
bind none next = none
bind (some s) next = next s

abbrev pub when : Bool → (Bytes × ℕ → Option (Bytes × ℕ)) → Bytes × ℕ → Option (Bytes × ℕ)
when test command s = if test then command s else some s

-- `">> %.4x:  "`
abbrev pub offset_text : ℕ → Bytes
offset_text i = b'>' ∷ b'>' ∷ b' ' ∷ (hex 4 i ++ b':' ∷ b' ' ∷ b' ' ∷ [])

-- The loop body of `hexdump2` up to its last test.
unfoldable pub dump_byte : (i byte : ℕ) → Bytes × ℕ → Option (Bytes × ℕ)
unfolding put put_newline
dump_byte i byte s = bind (when (i % 8 == 0 && not (i == 0)) (put (b' ' ∷ b' ' ∷ [])) s) (λ s.
    bind (when (i % 16 == 0 && not (i == 0)) put_newline s) (λ s.
      bind (when (i % 16 == 0) (put (offset_text i)) s) (λ s. put (hex 2 byte ++ b' ' ∷ []) s)))

-- The loop of `hexdump2` at byte `i` of the buffer, `left` bytes from the end.
unfoldable pub dump_loop : (left i : ℕ) → (buffer : Bytes) → Bytes × ℕ → Option (Bytes × ℕ)
unfolding dump_byte
dump_loop zero i buffer s = some s
dump_loop (suc left) i buffer s = bind (dump_byte i (get_or buffer i 0) s) (λ s.
    let rest = dump_loop left (i + 1) buffer s in if ltb (str_size - s.1) 64 then some s else rest)

-- `hexdump2`: the static buffer afterwards; `none` is a write outside it.
unfoldable pub hexdump2 : (buffer : Bytes) → (len : ℕ) → (str : Bytes) → Option Bytes
unfolding dump_loop
hexdump2 buffer len str = elim (dump_loop len 0 buffer (str, 0)) [ none ↦ none | some s ↦ some s.0 ]
