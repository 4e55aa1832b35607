-- ===== src/Netstring/Stream.antt =====
-- recvMessage of assignment4.c on a netstring that comes in several segments.
use grnvs.Prelude.{
  ℕ, suc, ◌+◌, ◌^◌, ◌≡◌, ◌<◌, ◌≤◌, refl, false, some, List, [], ◌∷◌, ◌++◌, arith, ◌==◌, length,
  length-append, length-drop, drop, get_or, map, ap, ◌∙◌, sym,
}
use grnvs.Memory.{Bytes, zeros, write_at}
use grnvs.Memory.Strings.{length-zeros, drop-zeros, write_at-start}
use grnvs.Decimal.{decimal}
use grnvs.Decimal.Laws.{count_digits-small, length-decimal-small}
use grnvs.Netstring.{bufsize, Reply, segment, World, ok, Order, read_net, recv_loop, recv_message}
use grnvs.Netstring.Write.{netstring}
use grnvs.Netstring.Start.{start, head-start}
use grnvs.Netstring.Read.{head-whole, read_net-netstring}
use grnvs.Netstring.Receive.{IsText}
use grnvs.Netstring.Messages.{received, stored, single-loop}
use grnvs.Netstring.Glued.{joined}
use grnvs.Netstring.Segments.{Arrives, read_net-segments}

-- No segment is empty.
abbrev pub Present : List Bytes → Type 0
Present [] = Unit {0}
Present (q ∷ qs) = (0 < length q) × Present qs

length-joined : (qs : List Bytes) → Present qs → length qs ≤ length (joined qs)
length-joined [] h = omega arith
length-joined (q ∷ qs) (some_byte, h) =
    omega (arith, length-joined qs h, length-append q (joined qs))

-- The loop goes on by what `readNet` gives.
recv_loop-same :
    (order : Order) (fuel nets used : ℕ) (buf buf' resp : Bytes) (w w' : World)
    → (get_or buf 0 0 == 0) ≡ false
    → (get_or buf' 0 0 == 0) ≡ false
    → read_net order bufsize buf used w ≡ read_net order bufsize buf' used w'
    → recv_loop order (suc fuel) buf resp used nets w
      ≡ recv_loop order (suc fuel) buf' resp used nets w'
unfolding recv_loop
recv_loop-same order fuel nets used buf buf' resp w w' head head' same = rw (head, head', same) refl

-- The first segment of a netstring stops somewhere behind the colon, after `p`. Any number of
-- others follow, none of them empty: the second of any length, each later one at least as long as
-- the one before it; each comes while `readNet` waits and is no longer than it asks for. The text
-- is not empty, has no 0 byte and at most 2047 bytes. With two rounds of fuel or more `recvMessage`
-- takes all segments and nothing behind them, and leaves in `respDst` what it leaves for the whole
-- netstring.
pub recv_message-segments :
    (order : Order) (fuel : ℕ) (t p : Bytes) (qs : List Bytes) (w : World) (later : List Reply)
    → w.replies ≡ segment (start (length t) p) ∷ (map segment qs ++ later)
    → p ++ joined qs ≡ t ++ b',' ∷ []
    → Present qs
    → Arrives (length t) (length (start (length t) p)) 0 qs
    → IsText t
    → length t ≤ 2047
    → recv_message order (suc (suc fuel)) w ≡ ok (stored t, some 1) (record w { replies = later })
unfolding recv_message
recv_message-segments order fuel t p qs w later e parts present arrives (t_lacks, some_text) fits =
    let n = length t in
    let small : n < 2 ^ 63 = omega arith in
    let total : length p + length (joined qs) ≡ n + 1 = omega (
      arith,
      ap (λ (s : Bytes). length s) parts,
      length-append p (joined qs),
      length-append t (b',' ∷ []),
    ) in
    let size = length-append (decimal n) (b':' ∷ p) in
    let digits : length (decimal n) ≤ 4 =
      ground (arith, length-decimal-small n (omega arith), count_digits-small n (omega arith)) in
    let (junk, cleared) =
      drop-zeros bufsize (length (start n p)) (omega (arith, size, total, digits)) in
    let fill : write_at 0 (start n p) (zeros bufsize) ≡ some (start n p ++ (0 ∷ junk)) =
      write_at-start (start n p) (zeros bufsize)
        (omega (arith, size, total, digits, length-zeros bufsize))
      ∙ ap (λ s. some (start n p ++ s)) cleared in
    let room : length (joined qs) ≤ length junk = omega (
      arith,
      size,
      total,
      digits,
      ap (λ (s : Bytes). length s) cleared,
      length-drop (length (start n p)) (zeros bufsize),
      length-zeros bufsize,
    ) in
    let left = drop (length (joined qs)) junk in
    let first_world : World = record w { replies = map segment qs ++ later } in
    let last_world : World = record w { replies = later } in
    let same =
      read_net-segments t p qs junk order bufsize 0 first_world later t_lacks some_text small parts
        refl arrives (omega (arith, length-joined qs present, total)) (omega arith) room
      ∙ sym (
          read_net-netstring t [] t_lacks tt some_text small left order 4095 0 last_world
            (omega arith)) in
    let loop =
      recv_loop-same order (suc fuel) 0 0 (start n p ++ (0 ∷ junk))
        ((netstring t ++ []) ++ (0 ∷ left)) (zeros bufsize) first_world last_world
        (head-start n p (0 ∷ junk)) (head-whole t [] t_lacks tt some_text small left) same
      ∙ single-loop order fuel t left last_world (t_lacks, some_text) fits in
    rw
      (
        received bufsize w (start n p) (map segment qs ++ later) e
            (omega (arith, size, total, digits)),
        fill,
      )
      (rw loop refl)
