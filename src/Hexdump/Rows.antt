-- ===== src/Hexdump/Rows.antt =====
-- The text of hexdump2 as rows of sixteen bytes.
use grnvs.Prelude.{
  ℕ, zero, suc, ◌+◌, ◌%◌, ◌≤◌, ◌≡◌, ◌≢◌, refl, arith, true, false, not, [], ◌∷◌, ◌++◌, ◌==◌, ==_ne,
  length, length-drop, take, drop, ap, ap₂, ◌∙◌, sym, append_assoc,
}
use grnvs.Memory.{Bytes}
use grnvs.Hexdump.{offset_text}
use grnvs.Hexdump.Text.{only_if, gap, newline, offset, byte_text, piece, pieces}

-- Two digits and a space for each byte.
unfoldable pub hex_bytes : Bytes → Bytes
hex_bytes [] = []
hex_bytes (byte ∷ bytes) = byte_text byte ++ hex_bytes bytes

-- A text that is there only if some bytes are.
abbrev pub if_any : Bytes → Bytes → Bytes
if_any [] text = []
if_any (b ∷ bytes) text = text

-- Rows of sixteen bytes from offset `i` on: the offset, eight bytes, and behind a gap the other eight;
-- a gap and a new line before the next row.
unfoldable pub rows : (fuel i : ℕ) → Bytes → Bytes
unfolding hex_bytes
rows zero i bytes = []
rows (suc fuel) i bytes =
    let second = drop 8 bytes in
    let later = drop 8 second in
    offset_text i
    ++ (hex_bytes (take 8 bytes)
        ++ (if_any second (b' ' ∷ b' ' ∷ hex_bytes (take 8 second))
            ++ if_any later (b' ' ∷ b' ' ∷ 10 ∷ rows fuel (i + 16) later)))

pieces-split :
    (n i : ℕ) (bytes : Bytes)
    → pieces i bytes ≡ pieces i (take n bytes) ++ pieces (i + n) (drop n bytes)
unfolding pieces
pieces-split zero i bytes = ap (λ k. pieces k bytes) (omega arith)
pieces-split (suc n) i [] = refl
pieces-split (suc n) i (b ∷ bytes) =
    ap (λ s. piece i b ++ s)
      (pieces-split n (i + 1) bytes
        ∙ ap (λ k. pieces (i + 1) (take n bytes) ++ pieces k (drop n bytes)) (omega arith))
    ∙ sym (
        append_assoc (piece i b) (pieces (i + 1) (take n bytes))
          (pieces (i + suc n) (drop n bytes)))

-- Within eight bytes nothing stands in front of a byte.
piece-within : (i byte : ℕ) → i % 8 ≢ 0 → piece i byte ≡ byte_text byte
piece-within i byte h =
    let eight : (i % 8 == 0) ≡ false = ==_ne (i % 8) 0 h in
    let sixteen : (i % 16 == 0) ≡ false = ==_ne (i % 16) 0 (λ e. h (omega (arith, e))) in
    rw (eight, sixteen) refl

pieces-within :
    (i : ℕ) (bytes : Bytes)
    → i % 8 ≢ 0
    → i % 8 + length bytes ≤ 8
    → pieces i bytes ≡ hex_bytes bytes
unfolding pieces hex_bytes
pieces-within i [] h fits = refl
pieces-within i (b ∷ []) h fits = ap (λ s. s ++ []) (piece-within i b h)
pieces-within i (b ∷ c ∷ bytes) h fits =
    ap (λ s. s ++ pieces (i + 1) (c ∷ bytes)) (piece-within i b h)
    ∙ ap (λ s. byte_text b ++ s)
        (pieces-within (i + 1) (c ∷ bytes) (λ e. omega (arith, e, fits)) (omega arith))

-- What stands in front of the eight bytes from `i` on.
abbrev lead : ℕ → Bytes
lead i = gap i ++ (newline i ++ offset i)

regroup : (a b c d s : Bytes) → (a ++ (b ++ (c ++ d))) ++ s ≡ (a ++ (b ++ c)) ++ (d ++ s)
regroup a b c d s = simp append_assoc

pieces-eight :
    (i b : ℕ) (bytes : Bytes)
    → i % 8 ≡ 0
    → length bytes ≤ 7
    → pieces i (b ∷ bytes) ≡ lead i ++ hex_bytes (b ∷ bytes)
unfolding pieces hex_bytes
pieces-eight i b bytes h fits =
    regroup (gap i) (newline i) (offset i) (byte_text b) (pieces (i + 1) bytes)
    ∙ ap (λ s. lead i ++ (byte_text b ++ s))
        (pieces-within (i + 1) bytes (λ e. omega (arith, e, h)) (omega arith))

lead-second : (i : ℕ) → i % 16 ≡ 8 → lead i ≡ b' ' ∷ b' ' ∷ []
lead-second i h =
    let eight : (i % 8 == 0) ≡ true = ground arith in
    let sixteen : (i % 16 == 0) ≡ false = ground arith in
    let start : (i == 0) ≡ false = ground arith in rw (eight, sixteen, start) refl

lead-row : (i : ℕ) → i % 16 ≡ 0 → i ≢ 0 → lead i ≡ b' ' ∷ b' ' ∷ 10 ∷ offset_text i
lead-row i h ne =
    let eight : (i % 8 == 0) ≡ true = ground arith in
    let sixteen : (i % 16 == 0) ≡ true = ground arith in
    let start : (i == 0) ≡ false = ==_ne i 0 ne in rw (eight, sixteen, start) refl

lead-start : lead 0 ≡ offset_text 0
lead-start = refl

length-take_le : (n : ℕ) (s : Bytes) → length (take n s) ≤ n
length-take_le zero s = omega arith
length-take_le (suc n) [] = omega arith
length-take_le (suc n) (b ∷ s) = omega (arith, length-take_le n s)

-- The second eight bytes of a row.
pieces-second :
    (i : ℕ) (bytes : Bytes)
    → i % 16 ≡ 8
    → length bytes ≤ 8
    → pieces i bytes ≡ if_any bytes (b' ' ∷ b' ' ∷ hex_bytes bytes)
unfolding pieces
pieces-second i [] h fits = refl
pieces-second i (b ∷ bytes) h fits =
    pieces-eight i b bytes (omega arith) (omega arith)
    ∙ ap (λ s. s ++ hex_bytes (b ∷ bytes)) (lead-second i h)

if_any-take : (n : ℕ) (bytes text : Bytes) → if_any (take (suc n) bytes) text ≡ if_any bytes text
if_any-take n [] text = refl
if_any-take n (b ∷ bytes) text = refl

-- The pieces of a row and of those behind it.
pieces-row :
    (i b : ℕ) (bytes : Bytes)
    → i % 16 ≡ 0
    → pieces i (b ∷ bytes)
      ≡ (lead i ++ hex_bytes (b ∷ take 7 bytes))
        ++ (if_any (drop 7 bytes) (b' ' ∷ b' ' ∷ hex_bytes (take 8 (drop 7 bytes)))
            ++ pieces (i + 16) (drop 8 (drop 7 bytes)))
pieces-row i b bytes h =
    let second = drop 7 bytes in
    pieces-split 8 i (b ∷ bytes)
    ∙ ap₂ ◌++◌ (pieces-eight i b (take 7 bytes) (omega arith) (length-take_le 7 bytes)) (
        pieces-split 8 (i + 8) second
        ∙ ap₂ ◌++◌
            (pieces-second (i + 8) (take 8 second) (omega arith) (length-take_le 8 second)
              ∙ if_any-take 7 second (b' ' ∷ b' ' ∷ hex_bytes (take 8 second)))
            (ap (λ k. pieces k (drop 8 second)) (omega arith)))

-- What stands behind the sixteen bytes of a row.
abbrev gap_row : Bytes → Bytes
gap_row text = b' ' ∷ b' ' ∷ 10 ∷ text

lead-any :
    (i : ℕ) → i % 16 ≡ 0 → lead i ≡ only_if (not (i == 0)) (b' ' ∷ b' ' ∷ 10 ∷ []) ++ offset_text i
lead-any zero h = refl
lead-any (suc i) h =
    let after : (suc i == 0) ≡ false = ground arith in
    lead-row (suc i) h (λ e. absurd (omega (arith, e)))
    ∙ ap (λ t. only_if (not t) (b' ' ∷ b' ' ∷ 10 ∷ []) ++ offset_text (suc i)) (sym after)

regroup-row : (a o f s t : Bytes) → ((a ++ o) ++ f) ++ (s ++ t) ≡ a ++ (o ++ (f ++ (s ++ t)))
regroup-row a o f s t = simp append_assoc

-- The pieces are the rows; behind the first row of the text a gap and a new line stand in front.
pub pieces-rows :
    (fuel i : ℕ) (bytes : Bytes)
    → i % 16 ≡ 0
    → length bytes ≤ fuel
    → pieces i bytes
      ≡ if_any bytes (only_if (not (i == 0)) (b' ' ∷ b' ' ∷ 10 ∷ []) ++ rows fuel i bytes)
unfolding pieces rows
pieces-rows fuel i [] h f = refl
pieces-rows zero i (b ∷ bytes) h f = absurd (omega arith)
pieces-rows (suc fuel) i (b ∷ bytes) h f =
    let later = drop 8 (drop 7 bytes) in
    let smaller : length later ≤ fuel =
      omega (arith, length-drop 8 (drop 7 bytes), length-drop 7 bytes) in
    let after : (i + 16 == 0) ≡ false = ground arith in
    let deeper : pieces (i + 16) later
        ≡ if_any later (b' ' ∷ b' ' ∷ 10 ∷ rows fuel (i + 16) later) =
      rw after at (pieces-rows fuel (i + 16) later (omega arith) smaller) in
    let front = only_if (not (i == 0)) (b' ' ∷ b' ' ∷ 10 ∷ []) in
    let row = hex_bytes (b ∷ take 7 bytes) in
    let second = if_any (drop 7 bytes) (b' ' ∷ b' ' ∷ hex_bytes (take 8 (drop 7 bytes))) in
    pieces-row i b bytes h
    ∙ ap₂ (λ s t. (s ++ row) ++ (second ++ t)) (lead-any i h) deeper
    ∙ regroup-row front (offset_text i) row second
        (if_any later (b' ' ∷ b' ' ∷ 10 ∷ rows fuel (i + 16) later))
