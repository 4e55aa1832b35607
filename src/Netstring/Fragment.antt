-- ===== src/Netstring/Fragment.antt =====
-- readNet of assignment4.c on a netstring of which the first segment is there.
use grnvs.Prelude.{
  ℕ, suc, ◌+◌, ◌-◌, ◌%◌, ◌^◌, ◌≡◌, ◌≢◌, ◌<◌, ◌≤◌, refl, none, some, Option, zero, List, [], ◌∷◌,
  ◌++◌, arith, lt→ltb, length, length-append, drop, get_or, ap, ◌∙◌, sym, append_assoc, append-nil,
}
use grnvs.Memory.{Bytes, zeros, string_at}
use grnvs.Memory.Strings.{Lacks, Lacks-append, c_string-zeros, string_at-drop}
use grnvs.Decimal.{decimal}
use grnvs.Decimal.Laws.{AllDigits-Lacks, AllDigits-decimal, Leads-decimal}
use grnvs.Netstring.{
  bufsize, Reply, segment, failed, World, Outcome, ok, exited, out_of_fuel, Order, read, complete,
  extract, read_net,
}
use grnvs.Netstring.Texts.{not_format, error_text}
use grnvs.Netstring.Write.{netstring}
use grnvs.Netstring.Start.{start, read_net-start, bad_whole-start}
use grnvs.Netstring.Read.{extracted}
use grnvs.Netstring.Check.{check_message-refuses}
use grnvs.Netstring.Glued.{joined}
use grnvs.Netstring.Segments.{Arrives, read_net-segments}
use grnvs.Netstring.Rounds.{part_of, complete-round, complete-stops}

-- The string of a first segment that stops after `p`, for a text of `n` bytes.
module _ (n : ℕ) (p junk : Bytes) (lacks : Lacks 0 p) where
  abbrev first : Bytes
  first = start n p

  first-Lacks : Lacks 0 first
  first-Lacks =
      Lacks-append 0 (decimal n) (b':' ∷ p)
        (AllDigits-Lacks 0 (decimal n) refl (AllDigits-decimal n)) (omega arith, lacks)

  string-first : string_at (first ++ (0 ∷ junk)) 0 ≡ some first
  string-first = string_at-drop 0 (first ++ (0 ∷ junk)) first junk refl first-Lacks

  head-first : get_or first 0 0 ≤ b'9'
  head-first = let lead = Leads-decimal n in rw lead.split (omega (arith, lead.digit.1))

  -- The connection is closed where the first segment of a netstring stops, within its text, and that
  -- segment is shorter than the text, its digits and its colon included: `read` returns 0 from then on,
  -- and `readNet` never returns, however many rounds it is given. What is there has no 0 byte.
  pub read_net-closed :
      (order : Order) (fuel cur : ℕ) (w : World)
      → 0 < n
      → n < 2 ^ 63
      → length first < n
      → w.replies ≡ []
      → read_net order fuel (first ++ (0 ∷ junk)) cur w ≡ out_of_fuel
  read_net-closed order fuel cur w some_text small short closed =
      read_net-start n p some_text small order fuel cur (first ++ (0 ∷ junk)) w string-first
      ∙ rw (spins fuel) refl
    where
      nothing : (k : ℕ) → read k w ≡ ok (some []) w
      nothing k = unfold read in rw closed refl

      spins : (fuel : ℕ) → complete fuel n (first ++ (0 ∷ junk)) (part_of []) w ≡ out_of_fuel
      spins zero = unfold complete in refl
      spins (suc fuel) =
          complete-round n fuel first junk [] [] [] w w refl first-Lacks short small tt
            (omega arith) (omega arith) (nothing (n - 0)) tt (omega arith) (omega arith)
          ∙ rw (append-nil first) (spins fuel)

  -- A string without a comma behind the loop is refused.
  module _ (no_comma : Lacks b',' p) where
    not_format-ne-first : not_format ≢ first
    unfolding not_format
    not_format-ne-first e = omega (arith, ap (λ (s : Bytes). get_or s 0 0) e, head-first)

    abbrev refused : World → Outcome (Bytes × Option ℕ)
    refused w = exited (record w {
      sent = w.sent ++ netstring (error_text not_format first) ∷ [];
      printed = w.printed ++ drop 2 (error_text not_format first) ∷ [];
    })

    extract-refuses :
        (order : Order) (cur : ℕ) (w : World)
        → bufsize ≤ length (first ++ (0 ∷ junk))
        → length (error_text not_format first) ≤ 4089
        → extract order (length (decimal n)) n cur (first ++ (0 ∷ junk)) w ≡ refused w
    unfolding extract
    extract-refuses order cur w whole room =
        rw (string-first, bad_whole-start n p no_comma)
          (rw
            (check_message-refuses order not_format first (first ++ (0 ∷ junk)) w string-first whole
              (λ e. omega (arith, e, head-first)) not_format-ne-first room)
            refl)

    -- The first segment of a netstring stops before its comma, but with the digits and the
    -- colon it has at least as many bytes as the text; what it has of the text has no 0 byte
    -- and no comma. `readNet` then does not wait for the rest: it refuses the netstring, and
    -- the process ends. The buffer has 4096 bytes or more, and
    -- the error message must fit into its buffers.
    pub read_net-incomplete :
        (order : Order) (fuel cur : ℕ) (w : World)
        → n ≤ length first
        → 0 < n
        → n < 2 ^ 63
        → bufsize ≤ length (first ++ (0 ∷ junk))
        → length (error_text not_format first) ≤ 4089
        → read_net order (suc fuel) (first ++ (0 ∷ junk)) cur w
          ≡ exited (record w {
            sent = w.sent ++ netstring (error_text not_format first) ∷ [];
            printed = w.printed ++ drop 2 (error_text not_format first) ∷ [];
          })
    read_net-incomplete order fuel cur w long some_text small whole room =
        read_net-start n p some_text small order (suc fuel) cur (first ++ (0 ∷ junk)) w string-first
        ∙ rw (complete-stops n fuel first junk [] w first-Lacks long tt (omega arith))
            (extract-refuses order cur w whole room)

    -- The first segment of a netstring stops within its text, of which it has no comma and no 0
    -- byte, and is shorter than the text, its digits and its colon included; the next `read` fails, as
    -- it does when the server says nothing for too long. `readNet` then refuses the netstring, and the
    -- process ends. The buffer has 4096 bytes or more, and the error message must fit into its buffers.
    pub read_net-timeout :
        (order : Order) (fuel cur : ℕ) (w : World) (later : List Reply)
        → 0 < n
        → n < 2 ^ 63
        → length first < n
        → w.replies ≡ failed ∷ later
        → bufsize ≤ length (first ++ (0 ∷ junk))
        → length (error_text not_format first) ≤ 4089
        → read_net order (suc fuel) (first ++ (0 ∷ junk)) cur w
          ≡ exited (record w {
            replies = later;
            sent = w.sent ++ netstring (error_text not_format first) ∷ [];
            printed = w.printed ++ drop 2 (error_text not_format first) ∷ [];
          })
    read_net-timeout order fuel cur w later some_text small short fails whole room =
        read_net-start n p some_text small order (suc fuel) cur (first ++ (0 ∷ junk)) w string-first
        ∙ rw gives_up (extract-refuses order cur (record w { replies = later }) whole room)
      where
        failing : (k : ℕ) → read k w ≡ ok none (record w { replies = later })
        failing k = unfold read in rw fails refl

        gives_up :
            complete (suc fuel) n (first ++ (0 ∷ junk)) (zeros bufsize) w
            ≡ ok (first ++ (0 ∷ junk)) (record w { replies = later })
        gives_up =
            unfold complete in
            rw (string-first, c_string-zeros bufsize (omega arith))
              (rw (lt→ltb (length first) n short, failing ((n + 2 ^ 64 - 0) % 2 ^ 64)) refl)

-- The first segment of a netstring stops within its text `p ++ q`, after at least one byte of
-- it, and is shorter than the text; the second one brings the rest and the comma, for which
-- there is room behind the first. The text has no 0 byte; its length and `curMessageLength` are
-- at most 4096 together. `readNet` then waits for the second segment, and does what it does
-- with the whole netstring.
read_net-fragment :
    (p q junk : Bytes) (order : Order) (fuel cur : ℕ) (w : World) (later : List Reply)
    (p_lacks : Lacks 0 p) (q_lacks : Lacks 0 q) (some_text : 0 < length (p ++ q))
    (small : length (p ++ q) < 2 ^ 63)
    → w.replies ≡ segment (q ++ b',' ∷ []) ∷ later
    → 0 < length p
    → length (start (length (p ++ q)) p) < length (p ++ q)
    → length (p ++ q) + cur ≤ bufsize
    → length q + 1 < bufsize
    → length q + 1 ≤ length junk
    → read_net order (suc (suc fuel)) (start (length (p ++ q)) p ++ (0 ∷ junk)) cur w
      ≡ ok
          (
            extracted
                (p ++ q)
                []
                (Lacks-append 0 p q p_lacks q_lacks)
                tt
                some_text
                small
                (drop (length q + 1) junk),
            some (length (decimal (length (p ++ q))) + length (p ++ q) + 2),
          )
          (record w { replies = later })
read_net-fragment p q junk order fuel cur w later p_lacks q_lacks some_text small e begun short fits
      below room =
    let n = length (p ++ q) in
    let more : Bytes = q ++ b',' ∷ [] in
    let alone : joined (more ∷ []) ≡ more = append-nil more in
    let size : length (joined (more ∷ [])) ≡ length q + 1 =
      ap (λ (s : Bytes). length s) alone ∙ length-append q (b',' ∷ []) in
    let ends : p ++ joined (more ∷ []) ≡ (p ++ q) ++ b',' ∷ [] =
      ap (λ s. p ++ s) alone ∙ sym (append_assoc p q (b',' ∷ [])) in
    let all = length-append q (b',' ∷ []) in
    let arrives : Arrives n (length (start n p)) 0 (more ∷ []) = (
      short,
      omega arith,
      omega (arith, all, length-append p q),
      omega (arith, all),
      omega (arith, all, length-append p q, length-append (decimal n) (b':' ∷ p)),
    ) in
    rw size at (
      read_net-segments (p ++ q) p (more ∷ []) junk order (suc (suc fuel)) cur w later
        (Lacks-append 0 p q p_lacks q_lacks) some_text small ends e arrives (omega arith) fits
        (omega (arith, size)))
