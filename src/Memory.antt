-- ===== src/Memory.antt =====
-- Byte buffers as assignment4.c uses them: a buffer is a list of bytes of fixed length, a string in it
-- runs to the next 0 byte, and an access outside the buffer is `none`.
pub mod Strings
use grnvs.Prelude.{
  ℕ, zero, suc, ◌+◌, ◌-◌, ◌≡◌, Bool, true, false, ◌&&◌, Option, none, some, List, [], ◌∷◌, ◌++◌,
  ◌==◌, leb, if◌then◌else◌, length, drop, take, replicate,
}

abbrev pub Bytes : Type 0
Bytes = List ℕ

-- `memset(p, 0, n)`
unfoldable pub zeros : ℕ → Bytes
zeros n = replicate n 0

-- The string at the start of the bytes, without its 0 byte; `none` if there is no 0 byte.
unfoldable pub c_string : Bytes → Option Bytes
c_string [] = none
c_string (b ∷ bs) =
    if b == 0 then some [] else elim (c_string bs) [ none ↦ none | some s ↦ some (b ∷ s) ]

-- `*(p + i)` as a string
unfoldable pub string_at : Bytes → ℕ → Option Bytes
string_at buf i = c_string (drop i buf)

-- The buffer with `bs` written from offset `i` on.
unfoldable pub write_at : ℕ → Bytes → Bytes → Option Bytes
write_at i bs buf =
    if leb (i + length bs) (length buf)
    then some (take i buf ++ (bs ++ drop (i + length bs) buf))
    else none

-- `strchr(s, c) - s`
unfoldable pub index_of : ℕ → Bytes → Option ℕ
index_of c [] = none
index_of c (b ∷ bs) =
    if b == c then some 0 else elim (index_of c bs) [ none ↦ none | some i ↦ some (suc i) ]

-- `strcmp(s, t) == 0`
unfoldable pub str_equal : Bytes → Bytes → Bool
str_equal [] [] = true
str_equal [] (c ∷ t) = false
str_equal (b ∷ s) [] = false
str_equal (b ∷ s) (c ∷ t) = (b == c) && str_equal s t
