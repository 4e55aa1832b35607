-- ===== src/Hexdump/Laws.antt =====
-- hexdump2 stays inside its buffer.
use grnvs.Prelude.{
  ℕ, zero, suc, ◌+◌, ◌-◌, ◌/◌, ◌%◌, ◌<◌, ◌≤◌, ◌≡◌, refl, arith, Bool, true, false, ◌&&◌, not,
  Option, some, [], ◌∷◌, ◌++◌, ◌==◌, ltb, leb, length, length-append, length-drop, length-take,
  take, drop, get_or, Bool-cases, inl, inr,
}
use grnvs.Memory.{Bytes, write_at}
use grnvs.Hexdump.{
  str_size, hex_loop, put, put_newline, bind, when, offset_text, dump_byte, dump_loop, hexdump2,
  hex, hex_digit,
}

length-hex_loop :
    (digits width n : ℕ) (out : Bytes) → length (hex_loop digits width n out) ≤ length out + digits
unfolding hex_loop
length-hex_loop zero width n out = omega arith
length-hex_loop (suc digits) width n out =
    let more = length-hex_loop digits (width - 1) (n / 16) (hex_digit (n % 16) ∷ out) in
    ground arith

-- A command that moves on by at most `room` and stays inside the buffer.
abbrev Moves : ℕ → (Bytes × ℕ → Option (Bytes × ℕ)) → Type 0
Moves room command =
    (str : Bytes) (p : ℕ)
    → length str ≡ str_size
    → p + room < str_size
    → (str' : Bytes) × (p' : ℕ) × (command (str, p) ≡ some (str', p'))
      × (length str' ≡ str_size)
      × (p' ≤ p + room)

write_at-inside :
    (i : ℕ) (bs buf : Bytes)
    → i + length bs ≤ length buf
    → (buf' : Bytes) × (write_at i bs buf ≡ some buf') × (length buf' ≡ length buf)
unfolding write_at
write_at-inside i bs buf h =
    let inside : leb (i + length bs) (length buf) ≡ true = ground arith in
    (
      take i buf ++ (bs ++ drop (i + length bs) buf),
      rw inside refl,
      omega (
        arith,
        length-append (take i buf) (bs ++ drop (i + length bs) buf),
        length-append bs (drop (i + length bs) buf),
        length-take i buf,
        length-drop (i + length bs) buf,
      ),
    )

Moves-put : (text : Bytes) (room : ℕ) → length text ≤ room → Moves room (put text)
unfolding put
Moves-put text room small str p size fits =
    let (str', e, same) =
      write_at-inside p (text ++ 0 ∷ []) str (omega (arith, length-append text (0 ∷ []))) in
    (str', p + length text, rw (e, put) refl, omega arith, omega arith)

Moves-put_newline : Moves 1 put_newline
unfolding put_newline
Moves-put_newline str p size fits =
    let (str', e, same) = write_at-inside p (10 ∷ []) str (omega arith) in
    (str', p + 1, rw (e, put_newline) refl, omega arith, omega arith)

Moves-when :
    (room : ℕ) (test : Bool) (command : Bytes × ℕ → Option (Bytes × ℕ))
    → Moves room command
    → Moves room (when test command)
Moves-when room true command moves str p size fits = moves str p size fits
Moves-when room false command moves str p size fits = (str, p, refl, size, omega arith)

Moves-bind :
    (a b : ℕ) (first next : Bytes × ℕ → Option (Bytes × ℕ))
    → Moves a first
    → Moves b next
    → Moves (a + b) (λ s. bind (first s) next)
Moves-bind a b first next moves then_moves str p size fits =
    let (str₁, p₁, e, size₁, near) = moves str p size (omega arith) in
    let (str₂, p₂, e₂, size₂, near₂) = then_moves str₁ p₁ size₁ (omega arith) in
    (str₂, p₂, rw e e₂, size₂, omega arith)

Moves-dump_byte : (i byte : ℕ) → Moves 40 (dump_byte i byte)
unfolding dump_byte
Moves-dump_byte i byte =
    Moves-bind 2 38 (when (i % 8 == 0 && not (i == 0)) (put (b' ' ∷ b' ' ∷ []))) _
      (Moves-when 2 (i % 8 == 0 && not (i == 0)) (put (b' ' ∷ b' ' ∷ []))
        (Moves-put (b' ' ∷ b' ' ∷ []) 2 (omega arith)))
      (Moves-bind 1 37 (when (i % 16 == 0 && not (i == 0)) put_newline) _
        (Moves-when 1 (i % 16 == 0 && not (i == 0)) put_newline Moves-put_newline)
        (Moves-bind 14 23 (when (i % 16 == 0) (put (offset_text i))) _
          (Moves-when 14 (i % 16 == 0) (put (offset_text i)) (Moves-put (offset_text i) 14 offset))
          (Moves-put (hex 2 byte ++ b' ' ∷ []) 23 number)))
  where
    offset : length (offset_text i) ≤ 14
    offset =
        omega (arith, length-append (hex 4 i) (b':' ∷ b' ' ∷ b' ' ∷ []), length-hex_loop 8 4 i [])

    number : length (hex 2 byte ++ b' ' ∷ []) ≤ 23
    number = omega (arith, length-append (hex 2 byte) (b' ' ∷ []), length-hex_loop 8 2 byte [])

dump_loop-inside :
    (left i : ℕ) (buffer str : Bytes) (p : ℕ)
    → length str ≡ str_size
    → p + 64 ≤ str_size
    → (s : Bytes × ℕ) × (dump_loop left i buffer (str, p) ≡ some s) × (length s.0 ≡ str_size)
unfolding dump_loop
dump_loop-inside zero i buffer str p size fits = ((str, p), refl, size)
dump_loop-inside (suc left) i buffer str p size fits =
    let (str', p', e, size', near) =
      Moves-dump_byte i (get_or buffer i 0) str p size (omega arith) in
    elim (Bool-cases (ltb (str_size - p') 64)) [
      | inl full ↦ ((str', p'), rw e (rw full refl), size')
      | inr room ↦
          let (s, rest, size'') =
            dump_loop-inside left (i + 1) buffer str' p' size' (ground arith) in
          (s, rw e (rw room rest), size'')
    ]

-- However many bytes it is given, `hexdump2` never writes outside its buffer of 65536 bytes.
pub hexdump2-inside :
    (buffer : Bytes) (len : ℕ) (str : Bytes)
    → length str ≡ str_size
    → (str' : Bytes) × (hexdump2 buffer len str ≡ some str') × (length str' ≡ str_size)
unfolding hexdump2
hexdump2-inside buffer len str size =
    let (s, e, size') = dump_loop-inside len 0 buffer str 0 size (omega arith) in
    (s.0, rw (e, hexdump2) refl, size')
