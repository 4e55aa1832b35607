-- ===== src/Netstring/Read.antt =====
-- readNet of assignment4.c on a buffer that holds a whole netstring.
use grnvs.Prelude.{
  ℕ, zero, suc, ◌+◌, ◌^◌, ◌≡◌, ◌<◌, ◌≤◌, refl, false, some, [], ◌∷◌, ◌++◌, arith, ◌==◌, ==_ne,
  length, length-append, drop, get_or, ap, ◌∙◌, append_assoc,
}
use grnvs.Memory.{Bytes, index_of}
use grnvs.Memory.Strings.{Lacks, Lacks-append, index_of-mem, drop-append, drop-drop}
use grnvs.Decimal.{decimal}
use grnvs.Decimal.Laws.{AllDigits-Lacks, AllDigits-decimal, Leads-decimal}
use grnvs.Netstring.{bufsize, World, ok, Order, extract, read_net}
use grnvs.Netstring.Accept
use grnvs.Netstring.Accept.{extract-takes, read_net-takes, length-taken}
use grnvs.Netstring.Write.{netstring}

drop-behind : (n : ℕ) (s rest : Bytes) → drop (length s + suc n) (s ++ (0 ∷ rest)) ≡ drop n rest
drop-behind n [] rest = let e : zero + suc n ≡ suc n = omega arith in rw e
drop-behind n (b ∷ s) rest =
    let e : suc (length s) + suc n ≡ suc (length s + suc n) = omega arith in
    rw e (drop-behind n s rest)

module _ (s tail : Bytes) (s_text : Lacks 0 s) (tail_text : Lacks 0 tail) (nonempty : 0 < length s)
    (small : length s < 2 ^ 63) where
  abbrev pub digits : Bytes
  digits = decimal (length s)

  -- The string in the buffer.
  abbrev pub whole : Bytes
  whole = netstring s ++ tail

  whole-split : whole ≡ digits ++ (b':' ∷ (s ++ (b',' ∷ tail)))
  unfolding netstring
  whole-split =
      append_assoc digits (b':' ∷ (s ++ b',' ∷ [])) tail
      ∙ ap (λ t. digits ++ (b':' ∷ t)) (append_assoc s (b',' ∷ []) tail)

  pub whole-text : Lacks 0 whole
  whole-text = rw whole-split (
      Lacks-append 0 digits (b':' ∷ (s ++ (b',' ∷ tail)))
        (AllDigits-Lacks 0 digits refl (AllDigits-decimal (length s)))
        (omega arith, Lacks-append 0 s (b',' ∷ tail) s_text (omega arith, tail_text)))

  module _ (junk : Bytes) where
    -- The buffer: the netstring, what follows it, a 0 byte, and anything.
    abbrev pub buffer : Bytes
    buffer = whole ++ (0 ∷ junk)

    -- What `readNet` makes of it: the text, a 0 byte, and the rest as it was.
    abbrev pub extracted : Bytes
    extracted = s ++ (0 ∷ drop (length s + 1) buffer)

    comma : (k : ℕ) × (index_of b',' (s ++ (b',' ∷ tail)) ≡ some k)
    comma = index_of-mem b',' s tail

    pub tail-Lacks : Lacks 0 (b',' ∷ tail)
    tail-Lacks = (omega arith, tail_text)

    pub buffer-taken : buffer ≡ Accept.buffer s (b',' ∷ tail) s_text tail-Lacks junk
    buffer-taken = ap (λ t. t ++ (0 ∷ junk)) whole-split

    -- `readNet` behind its loop, with the whole netstring in the buffer.
    pub extract-whole :
        (order : Order) (cur : ℕ) (w : World)
        → length s + cur ≤ bufsize
        → extract order (length digits) (length s) cur buffer w
          ≡ ok (extracted, some (length digits + length s + 2)) w
    extract-whole order cur w fits =
        let (k, found) = comma in
        rw buffer-taken
          (extract-takes s (b',' ∷ tail) s_text tail-Lacks junk k found order cur w small fits)

    -- The buffer starts with the netstring of a text that is not empty and has no 0 byte, then comes
    -- more text and a 0 byte; the text's length and `curMessageLength` are at most 4096 together.
    -- `readNet` then leaves the text at the start of the buffer, with a 0 byte behind it, returns the
    -- place behind the netstring, and neither reads nor sends.
    pub read_net-netstring :
        (order : Order) (fuel cur : ℕ) (w : World)
        → length s + cur ≤ bufsize
        → read_net order (suc fuel) buffer cur w
          ≡ ok (extracted, some (length digits + length s + 2)) w
    read_net-netstring order fuel cur w fits =
        let (k, found) = comma in
        rw buffer-taken (
          read_net-takes s (b',' ∷ tail) s_text tail-Lacks junk k found order fuel cur w nonempty
            small fits)

    -- Where it points, the rest of the string stands.
    pub rest-string : drop (length digits + length s + 2) extracted ≡ tail ++ (0 ∷ junk)
    rest-string =
        rw (drop-past, drop-drop (length digits + 1) (length s + 1) buffer, offset, parts)
          (drop-append (digits ++ (b':' ∷ (s ++ b',' ∷ []))) (tail ++ (0 ∷ junk)))
      where
        order_of : length digits + length s + 2 ≡ length s + suc (length digits + 1)
        order_of = omega arith

        drop-past :
            drop (length digits + length s + 2) extracted
            ≡ drop (length digits + 1) (drop (length s + 1) buffer)
        drop-past = rw order_of (drop-behind (length digits + 1) s (drop (length s + 1) buffer))

        offset : length s + 1 + (length digits + 1) ≡ length (digits ++ (b':' ∷ (s ++ b',' ∷ [])))
        offset =
            omega
              (arith, length-append digits (b':' ∷ (s ++ b',' ∷ [])), length-append s (b',' ∷ []))

        parts : buffer ≡ (digits ++ (b':' ∷ (s ++ b',' ∷ []))) ++ (tail ++ (0 ∷ junk))
        parts = unfold netstring in append_assoc (netstring s) tail (0 ∷ junk)

    pub length-extracted : length extracted ≡ length buffer
    length-extracted = rw buffer-taken (length-taken s (b',' ∷ tail) s_text tail-Lacks junk)

    -- The string is not empty.
    pub head-whole : (get_or buffer 0 0 == 0) ≡ false
    head-whole =
        let lead = Leads-decimal (length s) in
        rw (whole-split, lead.split) (==_ne lead.head 0 (λ e. omega (arith, lead.digit.0)))
