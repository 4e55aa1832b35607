-- ===== src/Hexdump/Text.antt =====
-- What hexdump2 writes into its buffer, byte by byte.
use grnvs.Prelude.{
  ℕ, suc, ◌+◌, ◌%◌, ◌<◌, ◌≡◌, refl, arith, Bool, true, false, ◌&&◌, not, Option, some, [], ◌∷◌,
  ◌++◌, ◌==◌, if◌then◌else◌, length, length-append, length-drop, drop, ap, ◌∙◌, sym, append_assoc,
  append-nil,
}
use grnvs.Memory.{Bytes}
use grnvs.Memory.Strings.{write_at-middle}
use grnvs.Hexdump.{put, put_newline, bind, when, offset_text, dump_byte, hex}

-- A command that appends a text to what stands in front of `p`.
abbrev Appends : Bytes → (Bytes × ℕ → Option (Bytes × ℕ)) → Type 0
Appends text command =
    (front rest : Bytes)
    → length text < length rest
    → (rest' : Bytes) × (command (front ++ rest, length front)
        ≡ some ((front ++ text) ++ rest', length (front ++ text)))
      × (length text + length rest' ≡ length rest)

-- `put` leaves a 0 byte behind its text.
put-ends :
    (text front rest : Bytes)
    → length text < length rest
    → put text (front ++ rest, length front)
      ≡ some ((front ++ text) ++ (0 ∷ drop (length text + 1) rest), length (front ++ text))
unfolding put
put-ends text front rest room =
    let size = length-append text (0 ∷ []) in
    let whole : length (text ++ 0 ∷ []) ≡ length text + 1 = omega (arith, size) in
    let moved : length front + length text ≡ length (front ++ text) =
      sym (length-append front text) in
    let group : front ++ ((text ++ 0 ∷ []) ++ drop (length (text ++ 0 ∷ [])) rest)
        ≡ (front ++ text) ++ (0 ∷ drop (length text + 1) rest) =
      ap (λ n. front ++ ((text ++ 0 ∷ []) ++ drop n rest)) whole
      ∙ (ap (λ s. front ++ s) (append_assoc text (0 ∷ []) (drop (length text + 1) rest))
          ∙ sym (append_assoc front text (0 ∷ drop (length text + 1) rest))) in
    rw (write_at-middle (length front) front (text ++ 0 ∷ []) rest refl (omega (arith, size)), put)
      (λ i. some (group i, moved i))

put-Appends : (text : Bytes) → Appends text (put text)
put-Appends text front rest room = (
  0 ∷ drop (length text + 1) rest,
  put-ends text front rest room,
  omega (arith, length-drop (length text + 1) rest),
)

put_newline-Appends : Appends (10 ∷ []) put_newline
unfolding put_newline
put_newline-Appends front rest room =
    let moved : length front + 1 ≡ length (front ++ 10 ∷ []) =
      sym (length-append front (10 ∷ [])) in
    (
      drop 1 rest,
      rw (write_at-middle (length front) front (10 ∷ []) rest refl (omega arith), put_newline)
          (λ i. some (sym (append_assoc front (10 ∷ []) (drop 1 rest)) i, moved i)),
      omega (arith, length-drop 1 rest),
    )

-- A text that is there only if a test holds.
abbrev pub only_if : Bool → Bytes → Bytes
only_if test text = if test then text else []

when-Appends :
    (test : Bool) (text : Bytes) (command : Bytes × ℕ → Option (Bytes × ℕ))
    → Appends text command
    → Appends (only_if test text) (when test command)
when-Appends true text command appends front rest room = appends front rest room
when-Appends false text command appends front rest room = (
  rest,
  (λ i. some (sym (append-nil front) i ++ rest, length (sym (append-nil front) i))),
  omega arith,
)

-- The same, with a 0 byte behind the text.
abbrev Terminates : Bytes → (Bytes × ℕ → Option (Bytes × ℕ)) → Type 0
Terminates text command =
    (front rest : Bytes)
    → length text < length rest
    → (junk : Bytes) × (command (front ++ rest, length front)
        ≡ some ((front ++ text) ++ (0 ∷ junk), length (front ++ text)))
      × (length text + suc (length junk) ≡ length rest)

put-Terminates : (text : Bytes) → Terminates text (put text)
put-Terminates text front rest room = (
  drop (length text + 1) rest,
  put-ends text front rest room,
  omega (arith, length-drop (length text + 1) rest),
)

bind-Terminates :
    (text text' : Bytes) (first next : Bytes × ℕ → Option (Bytes × ℕ))
    → Appends text first
    → Terminates text' next
    → Terminates (text ++ text') (λ s. bind (first s) next)
bind-Terminates text text' first next appends terminates front rest room =
    let size = length-append text text' in
    let (rest₁, e, left) = appends front rest (omega (arith, size)) in
    let (junk, e', left') = terminates (front ++ text) rest₁ (omega (arith, size)) in
    let group = append_assoc front text text' in
    (junk, rw e (e' ∙ (λ i. some (group i ++ (0 ∷ junk), length (group i)))), omega (arith, size))

-- What is printed for byte `i`: a gap after each eight bytes, a new line with its offset after each
-- sixteen, and the two digits of the byte.
abbrev pub gap : ℕ → Bytes
gap i = only_if (i % 8 == 0 && not (i == 0)) (b' ' ∷ b' ' ∷ [])

abbrev pub newline : ℕ → Bytes
newline i = only_if (i % 16 == 0 && not (i == 0)) (10 ∷ [])

abbrev pub offset : ℕ → Bytes
offset i = only_if (i % 16 == 0) (offset_text i)

abbrev pub byte_text : ℕ → Bytes
byte_text byte = hex 2 byte ++ b' ' ∷ []

abbrev pub piece : (i byte : ℕ) → Bytes
piece i byte = gap i ++ (newline i ++ (offset i ++ byte_text byte))

pub dump_byte-Terminates : (i byte : ℕ) → Terminates (piece i byte) (dump_byte i byte)
unfolding dump_byte
dump_byte-Terminates i byte =
    bind-Terminates (gap i) (newline i ++ (offset i ++ byte_text byte))
      (when (i % 8 == 0 && not (i == 0)) (put (b' ' ∷ b' ' ∷ []))) _
      (when-Appends (i % 8 == 0 && not (i == 0)) (b' ' ∷ b' ' ∷ []) (put (b' ' ∷ b' ' ∷ []))
        (put-Appends (b' ' ∷ b' ' ∷ [])))
      (bind-Terminates (newline i) (offset i ++ byte_text byte)
        (when (i % 16 == 0 && not (i == 0)) put_newline) _
        (when-Appends (i % 16 == 0 && not (i == 0)) (10 ∷ []) put_newline put_newline-Appends)
        (bind-Terminates (offset i) (byte_text byte) (when (i % 16 == 0) (put (offset_text i)))
          (put (byte_text byte))
          (when-Appends (i % 16 == 0) (offset_text i) (put (offset_text i))
            (put-Appends (offset_text i)))
          (put-Terminates (byte_text byte))))

-- The text of a list of bytes that starts at byte `i`.
unfoldable pub pieces : ℕ → Bytes → Bytes
pieces i [] = []
pieces i (byte ∷ bytes) = piece i byte ++ pieces (i + 1) bytes
