-- ===== src/Session/Queue.antt =====
-- The texts that the server has sent as a queue: `recvbuf`, `netStringsInBuf` and `startOfNetstring` hold
-- the first ones of it, several netstrings may come in one segment.
use grnvs.Prelude.{
  ℕ, suc, ◌+◌, ◌<◌, ◌≡◌, ◌≢◌, refl, arith, true, false, ◌==◌, some, List, [], ◌∷◌, ◌++◌, map,
  length, length-append, drop, ◌≤◌, get_or, leb, ap, sym, ◌∙◌, append_assoc,
}
use grnvs.Prelude.Int.{ℤ, pos, ◌-ℤ◌}
use grnvs.Memory.{Bytes, string_at}
use grnvs.Memory.Strings.{Lacks, string_at-drop, drop-drop}
use grnvs.Netstring.{bufsize, Reply, segment, Order, is_zero, check_message, update_nets}
use grnvs.Decimal.{decimal}
use grnvs.Netstring.Write.{netstring}
use grnvs.Netstring.Check.{check_message-same}
use grnvs.Netstring.Receive.{AllText, netstrings, packed, Fits}
use grnvs.Netstring.Messages.{recv_message-netstrings}
use grnvs.Session.{
  Client, Step, done, ◌>>◌, Socket, control, data_socket, receive, receive_more, check, advance,
}
use grnvs.Session.Exchange.{then-step, on-pass}

-- The texts that are in `recvbuf` and not yet counted off.
abbrev pub Pending : List Bytes → Client → Type 0
Pending [] s = (s.nets_in_buf ≡ pos 0) × (s.start ≡ 0)
Pending (t ∷ ts) s =
    (junk : Bytes) × (s.nets_in_buf ≡ pos (suc (length ts)))
    × (drop s.start s.recvbuf ≡ packed (t ∷ ts) ++ junk)

-- Netstrings that come in one segment: whole, together less than the buffer, and with room for the copies
-- that `recvMessage` makes.
abbrev pub IsGroup : List Bytes → Type 0
IsGroup ts = AllText ts × Fits 0 ts × (length (netstrings ts) < bufsize) × (0 < length ts)

abbrev pub AllGroups : List (List Bytes) → Type 0
AllGroups [] = Unit {0}
AllGroups (g ∷ gs) = IsGroup g × AllGroups gs

abbrev pub incoming : Socket → Client → List Reply
incoming control s = s.control_in
incoming data_socket s = s.data_in

abbrev pub as_segments : List (List Bytes) → List Reply
as_segments gs = map (λ g. segment (netstrings g)) gs

-- The queue: some texts are in `recvbuf`, the others still come, in groups.
abbrev pub Queue : Socket → List Bytes → List (List Bytes) → List Reply → Client → Type 0
Queue fd pending groups later s =
    Pending pending s
    × AllText pending
    × AllGroups groups
    × (incoming fd s ≡ as_segments groups ++ later)

-- The next text of a queue, and the queue behind it.
pub data Next
    : List Bytes → List (List Bytes) → Bytes → List Bytes → List (List Bytes) → Type 0 where
  held : (t : Bytes) (ts : List Bytes) (gs : List (List Bytes)) → Next (t ∷ ts) gs t ts gs
  read : (t : Bytes) (ts : List Bytes) (gs : List (List Bytes)) → Next [] ((t ∷ ts) ∷ gs) t ts gs

pub check-Pending :
    (order : Order) (fd : Socket) (t : Bytes) (ts : List Bytes) (s : Client)
    → Pending (t ∷ ts) s
    → Lacks 0 t
    → get_or t 0 0 ≢ b'E'
    → check order fd t s ≡ done tt s
unfolding check
check-Pending order fd t ts s (junk, nets, there) lacks ne =
    let memory = drop s.start s.recvbuf in
    let text : string_at memory 0 ≡ some t =
      string_at-drop 0 memory t (packed ts ++ junk) (there ∙ append_assoc t (0 ∷ packed ts) junk)
        lacks in
    on-pass order s fd (check_message order t memory)
      (λ w. check_message-same order t memory w text ne)

-- What `advance` leaves.
abbrev pub stepped : ℤ → ℕ → Client → Client
stepped nets start s = record s { nets_in_buf = nets; start = start }

minus_one : (n : ℕ) → pos (suc n) -ℤ pos 1 ≡ pos n
unfolding ◌-ℤ◌
minus_one n =
    let enough : leb 1 (suc n + 0) ≡ true = ground arith in rw enough (ap pos (omega arith))

drop-text : (t rest : Bytes) → drop (length t + 1) (t ++ (0 ∷ rest)) ≡ rest
drop-text [] rest = refl
drop-text (b ∷ t) rest =
    let e : suc (length t) + 1 ≡ suc (length t + 1) = omega arith in rw e (drop-text t rest)

advance-update_nets :
    (s : Client) (start : ℕ)
    → update_nets (s.nets_in_buf -ℤ pos 1) s.start s.recvbuf ≡ some start
    → advance s ≡ done tt (stepped (s.nets_in_buf -ℤ pos 1) start s)
unfolding advance
advance-update_nets s start e = rw (e, advance) refl

pub advance-Pending :
    (t : Bytes) (ts : List Bytes) (s : Client)
    → Pending (t ∷ ts) s
    → Lacks 0 t
    → (nets : ℤ) × (start : ℕ) × (advance s ≡ done tt (stepped nets start s))
      × Pending ts (stepped nets start s)
unfolding update_nets
advance-Pending t [] s (junk, nets, there) lacks =
    let left : s.nets_in_buf -ℤ pos 1 ≡ pos 0 = rw nets (minus_one 0) in
    (s.nets_in_buf -ℤ pos 1, 0, advance-update_nets s 0 (rw left refl), (left, refl))
advance-Pending t (t' ∷ ts) s (junk, nets, there) lacks =
    let n = length ts in
    let left : s.nets_in_buf -ℤ pos 1 ≡ pos (suc n) = rw nets (minus_one (suc n)) in
    let some_left : (suc n + 0 == 0) ≡ false = ground arith in
    let text : string_at s.recvbuf s.start ≡ some t =
      string_at-drop s.start s.recvbuf t (packed (t' ∷ ts) ++ junk)
        (there ∙ append_assoc t (0 ∷ packed (t' ∷ ts)) junk) lacks in
    let start = s.start + (length t + 1) in
    let moved : drop start s.recvbuf ≡ packed (t' ∷ ts) ++ junk =
      sym (drop-drop (length t + 1) s.start s.recvbuf)
      ∙ (ap (drop (length t + 1)) (there ∙ append_assoc t (0 ∷ packed (t' ∷ ts)) junk)
          ∙ drop-text t (packed (t' ∷ ts) ++ junk)) in
    (
      s.nets_in_buf -ℤ pos 1,
      start,
      advance-update_nets s start (rw (left, some_left, text) refl),
      (junk, left, moved),
    )

-- What `receive` leaves.
abbrev pub took : Socket → List Reply → Bytes → ℕ → Client → Client
took control later buf n s = record s { control_in = later; recvbuf = buf; nets_in_buf = pos n }
took data_socket later buf n s = record s { data_in = later; recvbuf = buf; nets_in_buf = pos n }

pub receive-group :
    (order : Order) (fuel : ℕ) (fd : Socket) (g : List Bytes) (later : List Reply) (s : Client)
    → IsGroup g
    → length g < fuel
    → incoming fd s ≡ segment (netstrings g) ∷ later
    → (left : Bytes) × (receive order fuel fd s
        ≡ done tt (took fd later (packed g ++ left) (length g) s))
unfolding receive
receive-group order fuel control g later s (texts, fits, short, _) enough e =
    let (left, run, _) =
      recv_message-netstrings order fuel g
        (record { replies = s.control_in; sent = s.control_out; printed = s.printed }) later e texts
        fits short enough in
    (left, rw run refl)
receive-group order fuel data_socket g later s (texts, fits, short, _) enough e =
    let (left, run, _) =
      recv_message-netstrings order fuel g
        (record { replies = s.data_in; sent = s.data_out; printed = s.printed }) later e texts fits
        short enough in
    (left, rw run refl)

-- What only the queue changes.
abbrev pub Kept : Client → Client → Type 0
Kept s s' =
    (s'.control_out ≡ s.control_out)
    × (s'.data_out ≡ s.data_out)
    × (s'.printed ≡ s.printed)
    × (s'.token ≡ s.token)

-- The code's idiom: more is received if nothing is held, the text is checked and counted off.
abbrev pub take_text : Order → ℕ → Socket → Bytes → Client → Step (Unit {0})
take_text order fuel fd t = receive_more order fuel fd >> (check order fd t >> advance)

incoming-stepped :
    (fd : Socket) (nets : ℤ) (start : ℕ) (s : Client)
    → incoming fd (stepped nets start s) ≡ incoming fd s
incoming-stepped control nets start s = refl
incoming-stepped data_socket nets start s = refl

-- A netstring has a byte at least, so that a group is no longer than the buffer.
length-netstrings : (ts : List Bytes) → length ts ≤ length (netstrings ts)
unfolding netstring
length-netstrings [] = omega arith
length-netstrings (t ∷ ts) = omega (
  arith,
  length-netstrings ts,
  length-append (netstring t) (netstrings ts),
  length-append (decimal (length t)) (b':' ∷ (t ++ b',' ∷ [])),
)

held-Queue :
    (order : Order) (fd : Socket) (t : Bytes) (ts : List Bytes) (gs : List (List Bytes))
    (later : List Reply) (s : Client)
    → Queue fd (t ∷ ts) gs later s
    → get_or t 0 0 ≢ b'E'
    → (s' : Client) × ((check order fd t >> advance) s ≡ done tt s')
      × Queue fd ts gs later s'
      × Kept s s'
held-Queue order fd t ts gs later s (pending, (text, texts), groups, e) ne =
    let (nets, start, run, rest) = advance-Pending t ts s pending text.0 in
    (
      stepped nets start s,
      then-step (λ _. advance) (check-Pending order fd t ts s pending text.0 ne) run,
      (rest, texts, groups, incoming-stepped fd nets start s ∙ e),
      (refl, refl, refl, refl),
    )

pub receive_more-held :
    (order : Order) (fuel : ℕ) (fd : Socket) (t : Bytes) (ts : List Bytes) (s : Client)
    → Pending (t ∷ ts) s
    → receive_more order fuel fd s ≡ done tt s
unfolding receive_more
receive_more-held order fuel fd t ts s (junk, nets, there) =
    let some_held : (suc (length ts) + 0 == 0) ≡ false = ground arith in rw (nets, some_held) refl

pub receive_more-empty :
    (order : Order) (fuel : ℕ) (fd : Socket) (s : Client)
    → s.nets_in_buf ≡ pos 0
    → receive_more order fuel fd s ≡ receive order fuel fd s
unfolding receive_more
receive_more-empty order fuel fd s nets =
    let empty : is_zero s.nets_in_buf ≡ true = rw nets refl in rw empty refl

took-Pending :
    (fd : Socket) (later : List Reply) (t : Bytes) (ts : List Bytes) (left : Bytes) (s : Client)
    → s.start ≡ 0
    → Pending (t ∷ ts) (took fd later (packed (t ∷ ts) ++ left) (length (t ∷ ts)) s)
took-Pending control later t ts left s e =
    (left, refl, ap (λ k. drop k (packed (t ∷ ts) ++ left)) e)
took-Pending data_socket later t ts left s e =
    (left, refl, ap (λ k. drop k (packed (t ∷ ts) ++ left)) e)

took-incoming :
    (fd : Socket) (later : List Reply) (buf : Bytes) (n : ℕ) (s : Client)
    → incoming fd (took fd later buf n s) ≡ later
took-incoming control later buf n s = refl
took-incoming data_socket later buf n s = refl

took-Kept :
    (fd : Socket) (later : List Reply) (buf : Bytes) (n : ℕ) (s : Client)
    → Kept s (took fd later buf n s)
took-Kept control later buf n s = (refl, refl, refl, refl)
took-Kept data_socket later buf n s = (refl, refl, refl, refl)

receive_more-read :
    (order : Order) (fuel : ℕ) (fd : Socket) (t : Bytes) (ts : List Bytes) (gs : List (List Bytes))
    (later : List Reply) (s : Client)
    → bufsize ≤ fuel
    → Queue fd [] ((t ∷ ts) ∷ gs) later s
    → (s' : Client) × (receive_more order fuel fd s ≡ done tt s')
      × Queue fd (t ∷ ts) gs later s'
      × Kept s s'
receive_more-read order fuel fd t ts gs later s enough ((nets, start), texts, (group, groups), e) =
    let few : length (t ∷ ts) < fuel = omega (arith, length-netstrings (t ∷ ts), group.2) in
    let after = as_segments gs ++ later in
    let (left, run) = receive-group order fuel fd (t ∷ ts) after s group few e in
    let n = length (t ∷ ts) in
    let buf = packed (t ∷ ts) ++ left in
    (
      took fd after buf n s,
      receive_more-empty order fuel fd s nets ∙ run,
      (took-Pending fd after t ts left s start, group.0, groups, took-incoming fd after buf n s),
      took-Kept fd after buf n s,
    )

-- However the server's netstrings are grouped into segments, `assignment4` takes the next text: where
-- none is held a segment is received, the text is the expected one, and it is counted off. The queue
-- behind it is left, and nothing is sent or printed. The texts are not empty, have no 0 byte, and the
-- expected one does not begin with E; a segment holds whole netstrings of less than 4096 bytes with
-- room for the copies of `recvMessage`. A fuel of 4096 is enough.
pub take_text-Queue :
    (order : Order) (fuel : ℕ) (fd : Socket) (t : Bytes) (pending pending' : List Bytes)
    (gs gs' : List (List Bytes)) (later : List Reply) (s : Client)
    → Next pending gs t pending' gs'
    → Queue fd pending gs later s
    → get_or t 0 0 ≢ b'E'
    → bufsize ≤ fuel
    → (s' : Client) × (take_text order fuel fd t s ≡ done tt s')
      × Queue fd pending' gs' later s'
      × Kept s s'
take_text-Queue order fuel fd _ _ _ _ _ later s (held t ts gs) queue ne enough =
    let (s', run, left, kept) = held-Queue order fd t ts gs later s queue ne in
    (
      s',
      then-step (λ _. check order fd t >> advance) (receive_more-held order fuel fd t ts s queue.0)
          run,
      left,
      kept,
    )
take_text-Queue order fuel fd _ _ _ _ _ later s (read t ts gs) queue ne enough =
    let (s₁, got, full, kept) = receive_more-read order fuel fd t ts gs later s enough queue in
    let (s', run, left, kept') = held-Queue order fd t ts gs later s₁ full ne in
    (
      s',
      then-step (λ _. check order fd t >> advance) got run,
      left,
      (kept'.0 ∙ kept.0, kept'.1 ∙ kept.1, kept'.2 ∙ kept.2, kept'.3 ∙ kept.3),
    )
