-- ===== src/Netstring/Accept.antt =====
-- What readNet of assignment4.c takes: it looks for a comma anywhere, not behind the text.
use grnvs.Prelude.{
  ℕ, suc, ◌+◌, ◌-◌, ◌%◌, ◌^◌, ◌≡◌, ◌<◌, ◌≤◌, refl, false, some, [], ◌∷◌, ◌++◌, arith, le→ltb,
  length, length-append, length-drop, drop, ap, ◌∙◌, append_assoc, append-nil,
}
use grnvs.Memory.{Bytes, string_at, write_at, index_of}
use grnvs.Memory.Strings.{
  Lacks, Lacks-append, index_of-Lacks, take-append, drop-drop, string_at-middle, string_at-drop,
  write_at-middle, write_at-start,
}
use grnvs.Decimal.{decimal}
use grnvs.Decimal.Laws.{AllDigits-Lacks, AllDigits-decimal}
use grnvs.Netstring.{bufsize, World, ok, Order, bad_whole, extract, read_net}
use grnvs.Netstring.Start.{start, colon-index, read_net-start}
use grnvs.Netstring.Rounds.{complete-stops}

module _ (s tail : Bytes) (s_lacks : Lacks 0 s) (tail_lacks : Lacks 0 tail) (junk : Bytes) where
  abbrev digits : Bytes
  digits = decimal (length s)

  -- The string: the length of the text, a colon, the text, and anything.
  abbrev string : Bytes
  string = start (length s) (s ++ tail)

  abbrev pub buffer : Bytes
  buffer = string ++ (0 ∷ junk)

  -- The text, a 0 byte, and the rest as it was.
  abbrev pub taken : Bytes
  taken = s ++ (0 ∷ drop (length s + 1) buffer)

  string-Lacks : Lacks 0 string
  string-Lacks =
      Lacks-append 0 digits (b':' ∷ (s ++ tail))
        (AllDigits-Lacks 0 digits refl (AllDigits-decimal (length s)))
        (omega arith, Lacks-append 0 s tail s_lacks tail_lacks)

  string-buffer : string_at buffer 0 ≡ some string
  string-buffer = string_at-drop 0 buffer string junk refl string-Lacks

  buffer-split : buffer ≡ (digits ++ b':' ∷ []) ++ ((s ++ tail) ++ (0 ∷ junk))
  buffer-split = simp append_assoc

  length-buffer : length s + length digits + 2 ≤ length buffer
  length-buffer = omega (
    arith,
    ap (λ (t : Bytes). length t) buffer-split,
    length-append (digits ++ b':' ∷ []) ((s ++ tail) ++ (0 ∷ junk)),
    length-append digits (b':' ∷ []),
    length-append (s ++ tail) (0 ∷ junk),
    length-append s tail,
  )

  text-string : string_at buffer (length digits + 1) ≡ some (s ++ tail)
  text-string = rw buffer-split (
      string_at-middle (length digits + 1) (digits ++ b':' ∷ []) (s ++ tail) junk
        (length-append digits (b':' ∷ [])) (Lacks-append 0 s tail s_lacks tail_lacks))

  first-write : write_at 0 (s ++ []) buffer ≡ some (s ++ drop (length s) buffer)
  first-write = rw append-nil (write_at-start s buffer (omega (arith, length-buffer)))

  second-write : write_at (length s) (0 ∷ []) (s ++ drop (length s) buffer) ≡ some taken
  second-write =
      write_at-middle (length s) s (0 ∷ []) (drop (length s) buffer) refl
        (omega (arith, length-drop (length s) buffer, length-buffer))
      ∙ ap (λ t. some (s ++ (0 ∷ t))) (drop-drop 1 (length s) buffer)

  pub length-taken : length taken ≡ length buffer
  length-taken = omega (
    arith,
    length-append s (0 ∷ drop (length s + 1) buffer),
    length-drop (length s + 1) buffer,
    length-buffer,
  )

  length-text_le : length s ≤ length string
  length-text_le = omega (arith, length-append digits (b':' ∷ (s ++ tail)), length-append s tail)

  module _ (k : ℕ) (comma : index_of b',' (s ++ tail) ≡ some k) where
    comma-index : (j : ℕ) × (index_of b',' string ≡ some j) × (length digits ≤ j)
    comma-index = (
      length digits + (1 + k),
      index_of-Lacks b',' (1 + k) digits (b':' ∷ (s ++ tail))
          (AllDigits-Lacks b',' digits refl (AllDigits-decimal (length s)))
          (index_of-Lacks b',' k (b':' ∷ []) (s ++ tail) (omega arith, tt) comma),
      omega arith,
    )

    bad_whole-string : bad_whole string ≡ false
    unfolding bad_whole
    bad_whole-string =
        let (j, e, le) = comma-index in
        rw (colon-index (length s) (s ++ tail), e, bad_whole) (le→ltb j (length digits) le)

    -- `readNet` behind its loop.
    pub extract-takes :
        (order : Order) (cur : ℕ) (w : World)
        → length s < 2 ^ 63
        → length s + cur ≤ bufsize
        → extract order (length digits) (length s) cur buffer w
          ≡ ok (taken, some (length digits + length s + 2)) w
    unfolding extract
    extract-takes order cur w small fits =
        rw (string-buffer, bad_whole-string)
          (rw
            (
              le→ltb bufsize ((length s + cur) % 2 ^ 64) (omega arith),
              text-string,
              take-append s tail,
              pad,
            )
            (rw (first-write, second-write) refl))
      where
        pad : length s - length s ≡ 0
        pad = omega arith

    -- The string in the buffer begins with the length of a text that is not empty, a colon and the
    -- text; anything may follow that brings a comma somewhere behind the colon, within the text or
    -- behind it. The string has no other 0 byte; the text's length and `curMessageLength` are at most
    -- 4096 together. `readNet` then takes the text as if the comma stood behind it, and neither reads
    -- nor sends.
    pub read_net-takes :
        (order : Order) (fuel cur : ℕ) (w : World)
        → 0 < length s
        → length s < 2 ^ 63
        → length s + cur ≤ bufsize
        → read_net order (suc fuel) buffer cur w ≡ ok (taken, some (length digits + length s + 2)) w
    read_net-takes order fuel cur w some_text small fits =
        read_net-start (length s) (s ++ tail) some_text small order (suc fuel) cur buffer w
          string-buffer
        ∙ rw
            (complete-stops (length s) fuel string junk [] w string-Lacks length-text_le tt
              (omega arith))
            (extract-takes order cur w small fits)
