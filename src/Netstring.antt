-- ===== src/Netstring.antt =====
-- assignment4/src/assignment4.c, lines 80 to 241: netstrings on a stream socket.
-- A command acts on the peer's replies still to come, on what was sent and on what was printed. Its
-- outcome is a value, the end of the process by `exit(-1)`, or `crash`: an access outside a buffer,
-- which C leaves undefined. A `read` delivers a segment of the stream, as much as was asked for; an
-- empty list of replies is a closed connection, where `read` returns 0.
-- `readNet` is called with `dest` and `src` both the start of `buf`, and is modelled so; the copies
-- between overlapping parts of `buf` go forwards, byte by byte.
pub mod Write
pub mod Start
pub mod Read
pub mod Rounds
pub mod Accept
pub mod Glued
pub mod Segments
pub mod Stream
pub mod Fragment
pub mod Receive
pub mod Messages
pub mod Check
pub mod Checked
mod MessageTests
mod Tests
use grnvs.Prelude.{
  ℕ, zero, suc, ◌+◌, ◌-◌, ◌*◌, ◌%◌, ◌^◌, ◌≡◌, Bool, true, false, not, ◌&&◌, ◌||◌, Option, none,
  some, List, [], ◌∷◌, ◌++◌, ◌==◌, ltb, leb, if◌then◌else◌, length, drop, take, replicate, get_or,
}
use grnvs.Prelude.Int.{ℤ, pos_part, neg_part}
use grnvs.Memory.{Bytes, zeros, string_at, write_at, index_of, str_equal}
use grnvs.Decimal.{decimal, count_digits, atol}
use grnvs.Netstring.Texts.{not_format, no_zero, error_text}
pub mod Texts

-- BUFSIZE
abbrev pub bufsize : ℕ
bufsize = 4096

-- What a `read` meets: an error (a timeout is one), or bytes.
pub data Reply : Type 0 where
  failed : Reply
  segment : Bytes → Reply

pub record World : Type 0 where
  pub replies : List Reply
  pub sent : List Bytes
  pub printed : List Bytes

pub data Outcome (A : Type 0) : Type 0 where
  ok : A → World → Outcome A
  exited : World → Outcome A
  crash : Outcome A
  out_of_fuel : Outcome A

abbrev pub Net : Type 0 → Type 0
Net A = World → Outcome A

abbrev pub pure : {A : Type 0} → A → Net A
pure a w = ok a w

abbrev pub then_do : {A B : Type 0} → Outcome A → (A → Net B) → Outcome B
then_do (ok a w) next = next a w
then_do (exited w) next = exited w
then_do crash next = crash
then_do out_of_fuel next = out_of_fuel

infixl 5 ◌>>=◌ ◌>>◌
abbrev pub ◌>>=◌ : {A B : Type 0} → Net A → (A → Net B) → Net B
◌>>=◌ first next w = then_do (first w) next

abbrev pub ◌>>◌ : {A B : Type 0} → Net A → Net B → Net B
◌>>◌ first second w = then_do (first w) (λ _. second)

-- An access to a buffer, which crashes outside it.
abbrev pub access : {A : Type 0} → Option A → Net A
access none w = crash
access (some a) w = ok a w

-- `read(fd, …, count)`: the bytes, `none` for an error. What was not asked for stays in the stream.
unfoldable pub read : ℕ → Net (Option Bytes)
read count w = elim w.replies [
  | [] ↦ ok (some []) w
  | reply ∷ later ↦ elim reply [
    | failed ↦ ok none (record w { replies = later })
    | segment bytes ↦ ok (some (take count bytes)) (record w {
      replies = if leb (length bytes) count then later else segment (drop count bytes) ∷ later;
    })
  ]
]

-- `write(fd, buf, count)` of bytes of the buffer
unfoldable pub write : Bytes → ℕ → Net (Unit {0})
write buf count w =
    if leb count (length buf)
    then ok tt (record w { sent = w.sent ++ take count buf ∷ [] })
    else crash

unfoldable pub print : Bytes → Net (Unit {0})
print text w = ok tt (record w { printed = w.printed ++ text ∷ [] })

-- What the compiler has made of the condition of `writeNet`, where `len` is assigned and read without
-- a sequence: C leaves that undefined, and the build warns of it. A program is modelled for which the
-- read gives the value behind the assignment or the one before it.
pub data Order : Type 0 where
  assign_first call_first : Order

unfoldable pub argument : Order → ℕ → ℕ → ℕ
argument assign_first buf_size len = len
argument call_first buf_size len = buf_size

-- The string that `writeNet` leaves in `dest`, by its test.
unfoldable pub net_text : Order → (buf_size : ℕ) → (src : Bytes) → Bytes
net_text order buf_size src =
    if ltb (length src) (buf_size - count_digits (argument order buf_size (length src)))
    then decimal (length src) ++ (b':' ∷ (src ++ b',' ∷ []))
    else b'0' ∷ b':' ∷ []

-- `writeNet`: the buffer, and the returned length. `src` is not in `dest`.
unfoldable pub write_net : Order → (buf_size : ℕ) → (src : Bytes) → Option (Bytes × ℕ)
write_net order buf_size src =
    elim (write_at 0 (net_text order buf_size src ++ 0 ∷ []) (zeros buf_size)) [
      | none ↦ none
      | some dest ↦ some (dest, length src + count_digits (length src) + 1)
    ]

-- `sendMessage`
unfoldable pub send_message : Order → Bytes → Net (Unit {0})
unfolding write_net
send_message order m = do (buf, len) ← access (write_net order bufsize m); write buf (len + 1)

-- The branch of `checkMessage` that refuses: the error message is built in a buffer of its own, sent
-- by way of the 4096 bytes from `actual` on, which are cleared, and printed behind "Error: ", and the
-- process ends. `memory` is what there is from `actual` on to the end of its buffer.
unfoldable pub refuse : Order → (errmsg memory : Bytes) → Net (Unit {0})
unfolding send_message
refuse order errmsg memory = do
  access (write_at 0 (errmsg ++ 0 ∷ []) (zeros bufsize))
  access (write_at 0 (zeros bufsize) memory)
  send_message order errmsg
  print (drop 2 errmsg)
  λ w. exited w

-- `checkMessage`: of an error message of the server `actual + 2` is printed, another message must be
-- the expected one. `memory` is what there is from `actual` on to the end of its buffer.
unfoldable pub check_message : Order → (expected memory : Bytes) → Net (Unit {0})
unfolding refuse
check_message order expected memory = do
  actual ← access (string_at memory 0)
  let refusal = refuse order (error_text expected actual) memory
  if get_or actual 0 0 == b'E'
      then access (string_at memory 2) >>= print
      else (if str_equal expected actual then pure tt else refusal)

-- `strchr(src, ':') == NULL || (strchr(src, ',') != NULL && strchr(src, ':') > strchr(src, ','))`
unfoldable pub bad_start : Bytes → Bool
bad_start src = elim (index_of b':' src) [
  | none ↦ true
  | some colon ↦ elim (index_of b',' src) [ none ↦ false | some comma ↦ ltb comma colon ]
]

-- `strchr(src, ':') == NULL || strchr(src, ',') == NULL || strchr(src, ':') > strchr(src, ',')`
unfoldable pub bad_whole : Bytes → Bool
bad_whole src = elim (index_of b':' src) [
  | none ↦ true
  | some colon ↦ elim (index_of b',' src) [ none ↦ true | some comma ↦ ltb comma colon ]
]

-- `while (strLength > strlen(src))`: reads more of the string into `part` and appends it to `src`,
-- which stands at the start of `buf`. `part` is not cleared between two reads.
unfoldable pub complete : ℕ → (str_length : ℕ) → (buf part : Bytes) → Net Bytes
complete zero str_length buf part = λ w. out_of_fuel
complete (suc fuel) str_length buf part = do
  src ← access (string_at buf 0)
  have ← access (string_at part 0)
  let more = (do
    reply ← read ((str_length + 2 ^ 64 - length have) % 2 ^ 64)
    elim reply [
      | none ↦ pure buf
      | some bytes ↦ (do
        part' ← access (write_at 0 bytes part)
        new ← access (string_at part' 0)
        buf' ← access (write_at (length src) (new ++ 0 ∷ []) buf)
        complete fuel str_length buf' part')
    ])
  if ltb (length src) str_length then more else pure buf

-- `readNet` behind its loop: the second check, the test for room, and the copies.
unfoldable pub extract :
    Order → (digits str_length cur : ℕ) → (buf : Bytes) → Net (Bytes × Option ℕ)
extract order digits str_length cur buf = do
  src ← access (string_at buf 0)
  if bad_whole src then check_message order not_format buf else pure tt
  let rest = (do
    text ← access (string_at buf (digits + 1))
    let copied = take str_length text
    buf ← access (write_at 0 (copied ++ replicate (str_length - length copied) 0) buf)
    buf ← access (write_at str_length (0 ∷ []) buf)
    pure (buf, some (digits + str_length + 2)))
  if ltb bufsize ((str_length + cur) % 2 ^ 64) then pure (buf, none) else rest

-- `readNet`: the buffer, and where the next netstring starts in it; `none` is the pointer -1.
unfoldable pub read_net : Order → ℕ → (buf : Bytes) → (cur : ℕ) → Net (Bytes × Option ℕ)
unfolding extract
read_net order fuel buf cur = do
  src ← access (string_at buf 0)
  if bad_start src then check_message order not_format buf else pure tt
  if get_or src 0 0 == b'0' then check_message order no_zero buf else pure tt
  digits ← access (index_of b':' src)
  let str_length = atol (take digits src)
  buf ← complete fuel str_length buf (zeros bufsize)
  extract order digits str_length cur buf

-- The loop of `recvMessage`; it runs on fuel.
unfoldable pub recv_loop :
    Order → ℕ → (buf resp : Bytes) → (message_length nets : ℕ) → Net (Bytes × ℕ)
recv_loop order zero buf resp message_length nets = λ w. out_of_fuel
recv_loop order (suc fuel) buf resp message_length nets =
    let step = (do
      (buf, next) ← read_net order bufsize buf message_length
      text ← access (string_at buf 0)
      resp ← access (write_at message_length (text ++ 0 ∷ []) resp)
      let message_length = message_length + (length text + 1)
      resp ← access (write_at message_length (text ++ 0 ∷ []) resp)
      next ← access next
      later ← access (string_at buf next)
      buf ← access (write_at 0 (later ++ 0 ∷ []) buf)
      recv_loop order fuel buf resp message_length (nets + 1)) in
    if get_or buf 0 0 == 0 then pure (resp, nets) else step

-- `recvMessage`: `respDst` and the number of netstrings; `none` is the result -1.
unfoldable pub recv_message : Order → ℕ → Net (Bytes × Option ℕ)
unfolding recv_loop
recv_message order fuel = do
  reply ← read bufsize
  elim reply [
    | none ↦ pure (zeros bufsize, none)
    | some bytes ↦ (do
      buf ← access (write_at 0 bytes (zeros bufsize))
      (resp, nets) ← recv_loop order fuel buf (zeros bufsize) 0 0
      pure (resp, some nets))
  ]

abbrev pub is_zero : ℤ → Bool
is_zero n = pos_part n + neg_part n == 0

-- `updateNets`: the offset of the current netstring in `recvbuf`
unfoldable pub update_nets : (num : ℤ) → (cur : ℕ) → (buf : Bytes) → Option ℕ
update_nets num cur buf =
    if is_zero num
    then some 0
    else elim (string_at buf cur) [ none ↦ none | some s ↦ some (cur + (length s + 1)) ]
