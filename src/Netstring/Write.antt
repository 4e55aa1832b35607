-- ===== src/Netstring/Write.antt =====
-- writeNet and sendMessage of assignment4.c: what is sent, and for which messages.
use grnvs.Prelude.{
  refl, if◌then◌else◌, ℕ, ◌+◌, ◌-◌, ◌≡◌, ◌<◌, ◌≤◌, true, false, none, some, [], ◌∷◌, ◌++◌, arith,
  ltb, leb, length, length-append, length-drop, drop, lt→ltb, le→ltb, ap, ◌∙◌, append_assoc,
  Bool-cases, inl, inr,
}
use grnvs.Memory.{Bytes, zeros, write_at}
use grnvs.Memory.Strings.{length-zeros, write_at-start, write_at-none, take-append}
use grnvs.Decimal.{decimal, count_digits}
use grnvs.Decimal.Laws.{count_digits-small, length-decimal-small}
use grnvs.Netstring.{
  bufsize, World, ok, crash, Order, assign_first, call_first, argument, net_text, then_do, access,
  write, write_net, send_message,
}

-- The netstring of a text: its length in decimal, a colon, the text, a comma.
unfoldable pub netstring : Bytes → Bytes
netstring s = decimal (length s) ++ (b':' ∷ (s ++ b',' ∷ []))

pub length-netstring :
    (s : Bytes) → length s < 10000 → length (netstring s) ≡ count_digits (length s) + length s + 2
unfolding netstring
length-netstring s h = omega (
  arith,
  length-append (decimal (length s)) (b':' ∷ (s ++ b',' ∷ [])),
  length-append s (b',' ∷ []),
  length-decimal-small (length s) h,
)

-- The test of `writeNet`, whichever value of `len` it reads.
pub room-4092 :
    (order : Order) (len : ℕ)
    → ltb len (bufsize - count_digits (argument order bufsize len)) ≡ ltb len 4092
unfolding argument
room-4092 call_first len = ap (λ d. ltb len (4096 - d)) (count_digits-small 4096 (omega arith))
room-4092 assign_first len = ground (arith, count_digits-small len)

write-prefix :
    (text rest : Bytes) (w : World)
    → write (text ++ rest) (length text) w ≡ ok tt (record w { sent = w.sent ++ text ∷ [] })
unfolding write
write-prefix text rest w =
    let fits : leb (length text) (length (text ++ rest)) ≡ true =
      ground (arith, length-append text rest) in
    rw (fits, take-append text rest)

abbrev after_text : Bytes → Bytes
after_text text = drop (length (text ++ 0 ∷ [])) (zeros bufsize)

net_text-short :
    (order : Order) (m : Bytes) → length m < 4092 → net_text order bufsize m ≡ netstring m
unfolding net_text netstring
net_text-short order m h = rw (room-4092 order (length m), lt→ltb (length m) 4092 h)

net_text-long :
    (order : Order) (m : Bytes) → 4092 ≤ length m → net_text order bufsize m ≡ b'0' ∷ b':' ∷ []
unfolding net_text
net_text-long order m h = rw (room-4092 order (length m), le→ltb (length m) 4092 h)

sends_some :
    (order : Order) (m : Bytes) (w : World) {buf : Bytes} {len : ℕ}
    → write_net order bufsize m ≡ some (buf, len)
    → send_message order m w ≡ write buf (len + 1) w
unfolding send_message
sends_some order m w e = ap (λ o. then_do (access o w) (λ x. write x.0 (x.1 + 1))) e

sends_none :
    (order : Order) (m : Bytes) (w : World)
    → write_net order bufsize m ≡ none
    → send_message order m w ≡ crash
unfolding send_message
sends_none order m w e = ap (λ o. then_do (access o w) (λ x. write x.0 (x.1 + 1))) e

module _ (order : Order) (m text : Bytes) (w : World) (e : net_text order bufsize m ≡ text) where
  -- `sendMessage` where the text has the room.
  send-fits :
      length text < bufsize
      → send_message order m w
        ≡ write ((text ++ 0 ∷ []) ++ after_text text) (length m + count_digits (length m) + 1 + 1) w
  send-fits fits = sends_some order m w (unfold write_net in rw (e, placed, write_net))
    where
      placed :
          write_at 0 (text ++ 0 ∷ []) (zeros bufsize) ≡ some ((text ++ 0 ∷ []) ++ after_text text)
      placed =
          write_at-start (text ++ 0 ∷ []) (zeros bufsize)
            (omega (arith, length-append text (0 ∷ []), length-zeros bufsize))

  send-overflows : bufsize ≤ length text → send_message order m w ≡ crash
  send-overflows over = sends_none order m w (unfold write_net in rw (e, refused, write_net))
    where
      refused : write_at 0 (text ++ 0 ∷ []) (zeros bufsize) ≡ none
      refused =
          write_at-none 0 (text ++ 0 ∷ []) (zeros bufsize)
            (omega (arith, length-append text (0 ∷ []), length-zeros bufsize))

write-over : (buf : Bytes) (count : ℕ) (w : World) → length buf < count → write buf count w ≡ crash
unfolding write
write-over buf count w h = let over : leb count (length buf) ≡ false = ground arith in rw over

-- Whether `writeNet` reads `len` before or behind its assignment, `sendMessage` sends exactly the
-- netstring of a message of up to 4089 bytes, with no 0 byte behind it.
pub send_message-netstring :
    (order : Order) (m : Bytes) (w : World)
    → length m ≤ 4089
    → send_message order m w ≡ ok tt (record w { sent = w.sent ++ netstring m ∷ [] })
send_message-netstring order m w h =
    let text = netstring m in
    let size = length-netstring m (omega arith) in
    let whole : length m + count_digits (length m) + 1 + 1 ≡ length text = omega (arith, size) in
    send-fits order m text w (net_text-short order m (omega arith))
      (ground (arith, size, count_digits-small (length m)))
    ∙ (rw (whole, append_assoc) (write-prefix text (0 ∷ after_text text) w))

-- With a longer message `sendMessage` leaves its buffer: it writes behind the buffer's end for 4090
-- and 4091 bytes, and reads behind it for all longer ones.
pub send_message-crash :
    (order : Order) (m : Bytes) (w : World) → 4090 ≤ length m → send_message order m w ≡ crash
send_message-crash order m w h = elim (Bool-cases (ltb (length m) 4092)) [
  | inl short ↦
      send-overflows order m (netstring m) w (net_text-short order m (ground arith))
        (ground (arith, length-netstring m, count_digits-small (length m)))
  | inr long ↦
      let text : Bytes = b'0' ∷ b':' ∷ [] in
      send-fits order m text w (net_text-long order m (ground arith)) (omega arith)
      ∙ write-over ((text ++ 0 ∷ []) ++ after_text text) _ w (
          ground (
            arith,
            count_digits-small (length m),
            length-append (text ++ 0 ∷ []) (after_text text),
            length-drop (length (text ++ 0 ∷ [])) (zeros bufsize),
            length-zeros bufsize,
          ))
]

-- Whether `writeNet` reads `len` before or behind its assignment, `sendMessage` sends exactly the
-- netstring of a message of up to 4089 bytes, with no 0 byte behind it. With a longer one it leaves its buffer.
pub send_message_lem :
    (order : Order) (m : Bytes) (w : World)
    → send_message order m w ≡ (
        if leb (length m) 4089
        then ok tt (record w { sent = w.sent ++ netstring m ∷ [] })
        else crash)
send_message_lem order m w = elim (Bool-cases (leb (length m) 4089)) [
  | inl room ↦ send_message-netstring order m w (ground arith) ∙ rw room refl
  | inr long ↦ send_message-crash order m w (ground arith) ∙ rw long refl
]
