-- ===== src/Netstring/Messages.antt =====
-- recvMessage of assignment4.c on the reply that it reads: whole netstrings, a text that is too long,
-- and a reply that fills the buffer.
use grnvs.Prelude.{
  ℕ, suc, ◌+◌, ◌^◌, ◌≡◌, ◌<◌, ◌≤◌, refl, false, none, some, List, [], ◌∷◌, ◌++◌, arith, ◌==◌,
  length, length-append, length-drop, length-take, leb, if◌then◌else◌, ==_ne, drop, take, get_or,
  ap, ◌∙◌, append-nil,
}
use grnvs.Memory.{Bytes, zeros, string_at, write_at}
use grnvs.Memory.Strings.{
  Lacks, length-zeros, take_all, drop-zeros, drop_all-zeros, c_string-Lacks, string_at-drop,
  write_at-start, write_at-none,
}
use grnvs.Decimal.{decimal}
use grnvs.Netstring.{
  bufsize, Reply, segment, World, ok, crash, Order, read, read_net, recv_loop, recv_message,
}
use grnvs.Decimal.Laws.{count_digits-small}
use grnvs.Netstring.Write.{netstring, length-netstring}
use grnvs.Netstring.Read.{extracted, read_net-netstring, head-whole}
use grnvs.Netstring.Receive.{
  IsText, AllText, netstrings, packed, Fits, moved, recv_loop-end, recv_loop-netstring,
  recv_loop-netstrings, recv_loop-crash,
}

pub received :
    (count : ℕ) (w : World) (bytes : Bytes) (later : List Reply)
    → w.replies ≡ segment bytes ∷ later
    → length bytes ≤ count
    → read count w ≡ ok (some bytes) (record w { replies = later })
unfolding read
received count w bytes later e h = ground (arith, take_all count bytes h)

received_long :
    (count : ℕ) (w : World) (bytes : Bytes) (later : List Reply)
    → w.replies ≡ segment bytes ∷ later
    → count ≤ length bytes
    → (w' : World) × (read count w ≡ ok (some (take count bytes)) w')
unfolding read
received_long count w bytes later e h = (
  record w {
    replies = if leb (length bytes) count then later else segment (drop count bytes) ∷ later;
  },
  ground arith,
)

-- The buffer of `recvMessage` after a short reply.
pub filled :
    (bytes : Bytes)
    → length bytes < bufsize
    → (junk : Bytes) × (write_at 0 bytes (zeros bufsize) ≡ some (bytes ++ (0 ∷ junk)))
filled bytes h =
    let (junk, e) = drop-zeros bufsize (length bytes) h in
    (
      junk,
      write_at-start bytes (zeros bufsize) (omega (arith, length-zeros bufsize))
          ∙ ap (λ s. some (bytes ++ s)) e,
    )

-- A reply is a sequence of whole netstrings, their texts not empty and without 0 bytes,
-- together less than 4096 bytes; each text has room for two copies behind the texts before it.
-- With more fuel than netstrings, `recvMessage` then leaves the texts one behind the other in
-- `respDst`, each with its 0 byte, and returns their number; it takes no other reply and sends
-- nothing.
pub recv_message-netstrings :
    (order : Order) (fuel : ℕ) (ts : List Bytes) (w : World) (later : List Reply)
    → w.replies ≡ segment (netstrings ts) ∷ later
    → AllText ts
    → Fits 0 ts
    → length (netstrings ts) < bufsize
    → length ts < fuel
    → (left : Bytes) × (recv_message order fuel w
        ≡ ok (packed ts ++ left, some (length ts)) (record w { replies = later }))
      × (length (packed ts) + length left ≡ bufsize)
unfolding recv_message
recv_message-netstrings order fuel ts w later e k f short enough =
    let (junk, fill) = filled (netstrings ts) short in
    let (left, loop, whole) =
      recv_loop-netstrings order fuel 0 0 ts junk [] (zeros bufsize) (record w { replies = later })
        k f enough refl (omega (arith, length-zeros bufsize)) in
    let counted : 0 + length ts ≡ length ts = omega arith in
    (
      left,
      rw (received bufsize w (netstrings ts) later e (omega arith), fill) (rw (loop, counted) refl),
      whole,
    )

-- What a single text leaves in `respDst`: both copies, and the cleared rest.
abbrev pub stored : Bytes → Bytes
stored t =
    (t ++ 0 ∷ [])
    ++ ((t ++ 0 ∷ []) ++ drop (length (t ++ 0 ∷ [])) (drop (length (t ++ 0 ∷ [])) (zeros bufsize)))

pub single-loop :
    (order : Order) (fuel : ℕ) (t junk : Bytes) (w : World)
    → IsText t
    → length t ≤ 2047
    → recv_loop order (suc (suc fuel)) ((netstring t ++ []) ++ (0 ∷ junk)) (zeros bufsize) 0 0 w
      ≡ ok (stored t, 1) w
single-loop order fuel t junk w k fits =
    let room : Fits 0 (t ∷ []) = (omega arith, tt) in
    recv_loop-netstring t [] 0 (k, tt) room junk order (suc fuel) 0 [] (zeros bufsize) w refl
      (omega (arith, length-zeros bufsize))
    ∙ recv_loop-end order fuel 1 (0 + (length t + 1)) (moved t [] 0 (k, tt) room junk) (stored t) w

-- A reply of a single netstring.
recv_message-netstring :
    (order : Order) (fuel : ℕ) (t : Bytes) (w : World) (later : List Reply)
    → w.replies ≡ segment (netstring t) ∷ later
    → IsText t
    → length t ≤ 2047
    → recv_message order (suc (suc fuel)) w ≡ ok (stored t, some 1) (record w { replies = later })
unfolding recv_message
recv_message-netstring order fuel t w later e k fits =
    let w' : World = record w { replies = later } in
    let size = length-netstring t (omega arith) in
    let short : length (netstring t) < bufsize = ground (arith, count_digits-small (length t)) in
    let (junk, fill) = filled (netstring t) short in
    let tail = append-nil (netstring t) in
    let loop = single-loop order fuel t junk w' k fits in
    rw (received bufsize w (netstring t) later e (omega arith), fill) (rw (← tail) (rw loop refl))

-- The loop on a single text that has no room for its second copy.
single-crash :
    (order : Order) (fuel : ℕ) (t junk : Bytes) (w : World)
    → Lacks 0 t
    → 2048 ≤ length t
    → length t < 4095
    → recv_loop order (suc fuel) ((netstring t ++ []) ++ (0 ∷ junk)) (zeros bufsize) 0 0 w ≡ crash
single-crash order fuel t junk w lacks long short =
    let some_text : 0 < length t = omega arith in
    let small : length t < 2 ^ 63 = omega arith in
    let written : Bytes = t ++ 0 ∷ [] in
    let size = length-append t (0 ∷ []) in
    let room = length-zeros bufsize in
    recv_loop-crash order fuel 0 0 (length (decimal (length t)) + length t + 2)
      ((netstring t ++ []) ++ (0 ∷ junk)) (extracted t [] lacks tt some_text small junk)
      (zeros bufsize) (written ++ drop (length written) (zeros bufsize)) t w
      (head-whole t [] lacks tt some_text small junk)
      (read_net-netstring t [] lacks tt some_text small junk order 4095 0 w (omega arith))
      (string_at-drop 0 (extracted t [] lacks tt some_text small junk) t
        (drop (length t + 1) ((netstring t ++ []) ++ (0 ∷ junk))) refl lacks)
      (write_at-start written (zeros bufsize) (omega (arith, size, room)))
      (write_at-none (0 + (length t + 1)) written (written ++ drop (length written) (zeros bufsize))
        (omega (
          arith,
          size,
          room,
          length-append written (drop (length written) (zeros bufsize)),
          length-drop (length written) (zeros bufsize),
        )))

-- A single text without 0 bytes, of 2048 bytes or more, is too long for the second copy, though
-- its netstring is shorter than the buffer that it is read into: `recvMessage` writes behind
-- the end of `respDst`.
pub recv_message-overflow :
    (order : Order) (fuel : ℕ) (t : Bytes) (w : World) (later : List Reply)
    → w.replies ≡ segment (netstring t) ∷ later
    → Lacks 0 t
    → 2048 ≤ length t
    → length (netstring t) < bufsize
    → recv_message order (suc fuel) w ≡ crash
unfolding recv_message
recv_message-overflow order fuel t w later e lacks long short =
    let (junk, fill) = filled (netstring t) short in
    let shape = length-append (decimal (length t)) (b':' ∷ (t ++ b',' ∷ [])) in
    let size = length-append t (b',' ∷ []) in
    let below : length t < 4095 = unfold netstring in omega (arith, shape, size, short) in
    let loop = single-crash order fuel t junk (record w { replies = later }) lacks long below in
    let tail = append-nil (netstring t) in
    rw (received bufsize w (netstring t) later e (omega arith), fill) (rw (← tail) (rw loop refl))

read_net-none :
    (order : Order) (fuel used : ℕ) (buf : Bytes) (w : World)
    → string_at buf 0 ≡ none
    → read_net order fuel buf used w ≡ crash
unfolding read_net
read_net-none order fuel used buf w e = rw e refl

head-Lacks : (s : Bytes) → 0 < length s → Lacks 0 s → (get_or s 0 0 == 0) ≡ false
head-Lacks [] some_byte h = absurd (omega arith)
head-Lacks (b ∷ s) some_byte (ne, h) = ==_ne b 0 ne

recv_loop-unterminated :
    (order : Order) (fuel : ℕ) (buf : Bytes) (w : World)
    → 0 < length buf
    → Lacks 0 buf
    → recv_loop order (suc fuel) buf (zeros bufsize) 0 0 w ≡ crash
unfolding recv_loop
recv_loop-unterminated order fuel buf w some_byte lacks =
    let no_string : string_at buf 0 ≡ none = unfold string_at in c_string-Lacks buf lacks in
    rw (head-Lacks buf some_byte lacks, read_net-none order bufsize 0 buf w no_string) refl

full-buffer :
    (bytes : Bytes) → length bytes ≡ bufsize → write_at 0 bytes (zeros bufsize) ≡ some bytes
full-buffer bytes e =
    write_at-start bytes (zeros bufsize) (omega (arith, length-zeros bufsize))
    ∙ ap some (
        ap (λ n. bytes ++ drop n (zeros bufsize)) e
        ∙ ap (λ s. bytes ++ s) (drop_all-zeros bufsize)
        ∙ append-nil bytes)

-- A reply of 4096 bytes or more that has no 0 byte in its first 4096 fills the buffer, which then
-- holds no string: it is read as one all the same, beyond its end.
pub recv_message-full :
    (order : Order) (fuel : ℕ) (bytes : Bytes) (w : World) (later : List Reply)
    → w.replies ≡ segment bytes ∷ later
    → bufsize ≤ length bytes
    → Lacks 0 (take bufsize bytes)
    → recv_message order (suc fuel) w ≡ crash
unfolding recv_message
recv_message-full order fuel bytes w later e long lacks =
    let (w', got) = received_long bufsize w bytes later e long in
    let size = length-take bufsize bytes long in
    rw (got, full-buffer (take bufsize bytes) size)
      (rw (recv_loop-unterminated order fuel (take bufsize bytes) w' (omega (arith, size)) lacks)
        refl)
