-- ===== src/Hexdump/Buffer.antt =====
-- hexdump2's buffer holds the rows of a buffer that fits.
use grnvs.Prelude.{
  ℕ, suc, ◌+◌, ◌-◌, ◌*◌, ◌/◌, ◌<◌, ◌≤◌, ◌≡◌, refl, arith, true, false, Option, some, [], ◌∷◌, ◌++◌,
  ◌==◌, ltb, length, length-append, get_or, ◌∙◌, sym, append_assoc, append-nil,
}
use grnvs.Memory.{Bytes}
use grnvs.Hexdump.{str_size, hex_loop, dump_byte, dump_loop, hexdump2, hex, offset_text}
use grnvs.Hexdump.Text.{gap, newline, offset, byte_text, piece, pieces, dump_byte-Terminates}
use grnvs.Hexdump.Rows.{rows, pieces-rows}

-- Each is below 256.
abbrev pub AreBytes : Bytes → Type 0
AreBytes [] = Unit {0}
AreBytes (b ∷ bytes) = (b < 256) × AreBytes bytes

length-hex_byte : (b : ℕ) → b < 256 → length (hex 2 b) ≡ 2
unfolding hex_loop
length-hex_byte b h = let out : (b / 16 / 16 == 0) ≡ true = ground arith in rw out refl

length-hex_offset : (i : ℕ) → i < 65536 → length (hex 4 i) ≡ 4
unfolding hex_loop
length-hex_offset i h = let out : (i / 16 / 16 / 16 / 16 == 0) ≡ true = ground arith in rw out refl

-- Where the text of a byte may begin: three characters for each byte before it, two for each eight
-- and eleven for each sixteen of them begun.
abbrev bound : ℕ → ℕ
bound i = 3 * i + 2 * ((i + 7) / 8) + 11 * ((i + 15) / 16)

length-gap : (i : ℕ) → length (gap i) + 2 * ((i + 7) / 8) ≤ 2 * ((i + 8) / 8)
length-gap i = ground arith

length-row_start :
    (i : ℕ)
    → i < 65536
    → length (newline i) + length (offset i) + 11 * ((i + 15) / 16) ≤ 11 * ((i + 16) / 16)
length-row_start i h =
    let full : length (offset_text i) ≡ 10 =
      omega (arith, length-append (hex 4 i) (b':' ∷ b' ' ∷ b' ' ∷ []), length-hex_offset i h) in
    ground (arith, full)

length-piece : (i b : ℕ) → i < 65536 → b < 256 → length (piece i b) + bound i ≤ bound (i + 1)
length-piece i b h byte = omega (
  arith,
  length-append (gap i) (newline i ++ (offset i ++ byte_text b)),
  length-append (newline i) (offset i ++ byte_text b),
  length-append (offset i) (byte_text b),
  length-append (hex 2 b) (b' ' ∷ []),
  length-hex_byte b byte,
  length-gap i,
  length-row_start i h,
)

get_or-middle :
    (done : Bytes) (b : ℕ) (bytes : Bytes) → get_or (done ++ b ∷ bytes) (length done) 0 ≡ b
get_or-middle [] b bytes = refl
get_or-middle (d ∷ done) b bytes = get_or-middle done b bytes

-- Text with a 0 byte behind it, from the start of the buffer.
abbrev Holds : Bytes → Option (Bytes × ℕ) → Type 0
Holds text result = (junk : Bytes) × (result ≡ some (text ++ (0 ∷ junk), length text))

-- One round of the loop: the text of byte `i`, and room for more.
first_byte :
    (done : Bytes) (b : ℕ) (later front rest : Bytes) (i : ℕ) (buffer : Bytes)
    → i ≡ length done
    → buffer ≡ done ++ (b ∷ later)
    → b < 256
    → i < 16384
    → length front ≤ bound i
    → length front + length rest ≡ str_size
    → (junk : Bytes) × (dump_byte i (get_or buffer i 0) (front ++ rest, length front)
        ≡ some ((front ++ piece i b) ++ (0 ∷ junk), length (front ++ piece i b)))
      × (ltb (str_size - length (front ++ piece i b)) 64 ≡ false)
      × (length (front ++ piece i b) ≤ bound (i + 1))
      × (length (front ++ piece i b) + suc (length junk) ≡ str_size)
first_byte done b later front rest i buffer at whole byte fits early size =
    let grown = length-append front (piece i b) in
    let small = length-piece i b (omega arith) byte in
    let (junk, e, left) = dump_byte-Terminates i b front rest (omega (arith, small)) in
    let there : get_or buffer i 0 ≡ b = rw (at, whole) (get_or-middle done b later) in
    let near : length (front ++ piece i b) ≤ bound (i + 1) = omega (arith, small, grown) in
    (junk, rw there e, ground (arith, near), near, omega (arith, grown, left))

-- The loop from its byte `i` on, behind the bytes `done`.
dump_loop-pieces :
    (done : Bytes) (b : ℕ) (bytes after front rest : Bytes) (i : ℕ) (buffer : Bytes)
    → i ≡ length done
    → buffer ≡ done ++ (b ∷ (bytes ++ after))
    → AreBytes (b ∷ bytes)
    → i + suc (length bytes) ≤ 16384
    → length front ≤ bound i
    → length front + length rest ≡ str_size
    → Holds
        (front ++ pieces i (b ∷ bytes))
        (dump_loop (suc (length bytes)) i buffer (front ++ rest, length front))
unfolding dump_loop pieces
dump_loop-pieces done b [] after front rest i buffer at whole are fits early size =
    let (junk, e, room, near, same) =
      first_byte done b after front rest i buffer at whole are.0 (omega arith) early size in
    (
      junk,
      rw (e, room)
          (λ k. some (
            (front ++ sym (append-nil (piece i b)) k) ++ (0 ∷ junk),
            length (front ++ sym (append-nil (piece i b)) k),
          )),
    )
dump_loop-pieces done b (c ∷ bytes) after front rest i buffer at whole are fits early size =
    let (junk, e, room, near, same) =
      first_byte done b (c ∷ (bytes ++ after)) front rest i buffer at whole are.0 (omega arith)
        early size in
    let (junk', rest_holds) =
      dump_loop-pieces (done ++ b ∷ []) c bytes after (front ++ piece i b) (0 ∷ junk) (i + 1) buffer
        (omega (arith, length-append done (b ∷ [])))
        (whole ∙ sym (append_assoc done (b ∷ []) (c ∷ (bytes ++ after)))) are.1 (omega arith) near
        same in
    let group = append_assoc front (piece i b) (pieces (i + 1) (c ∷ bytes)) in
    (junk', rw (e, room) (rest_holds ∙ (λ k. some (group k ++ (0 ∷ junk'), length (group k)))))

-- `hexdump2` prints the first bytes of a buffer, at least one and at most 16384, as rows of sixteen:
-- the offset in four digits, the bytes in two digits each, and a gap between the two halves of a row;
-- between two rows stand a gap and a new line. Its buffer then begins with this text and a 0 byte.
pub hexdump2-rows :
    (b : ℕ) (bytes after str : Bytes)
    → AreBytes (b ∷ bytes)
    → suc (length bytes) ≤ 16384
    → length str ≡ str_size
    → (junk : Bytes) × (hexdump2 (b ∷ (bytes ++ after)) (suc (length bytes)) str
        ≡ some (rows (suc (length bytes)) 0 (b ∷ bytes) ++ (0 ∷ junk)))
unfolding hexdump2
hexdump2-rows b bytes after str are fits size =
    let (junk, e) =
      dump_loop-pieces [] b bytes after [] str 0 (b ∷ (bytes ++ after)) refl refl are (omega arith)
        (omega arith) (omega (arith, size)) in
    let text = pieces-rows (suc (length bytes)) 0 (b ∷ bytes) refl (omega arith) in
    (junk, rw (e, hexdump2) (λ k. some (text k ++ (0 ∷ junk))))
