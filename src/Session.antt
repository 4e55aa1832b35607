-- ===== src/Session.antt =====
-- assignment4/src/assignment4.c, lines 250 to 423: `assignment4`, the run of the chat protocol over
-- the control socket and the data socket. Steps has its variables and what a step can do.
-- What the calls on sockets answer is an input. `nick` and `msg` are strings of the command line.
pub mod Steps
pub mod Peer
pub mod Exchange
pub mod Queue
pub mod Grouped
mod Options
pub mod Parts
pub mod Run
pub mod Closing
pub mod Closed
pub mod Arguments
pub mod Parsing
pub mod Accepting
pub mod Main
pub mod Started
pub mod NotNull
mod MainTests
mod Tests
use grnvs.Prelude.{
  ℕ, zero, suc, ◌+◌, ◌≡◌, Bool, true, false, not, ◌&&◌, ◌||◌, Option, none, some, List, [], ◌∷◌,
  ◌++◌, ◌==◌, if◌then◌else◌, length, get_or, drop,
}
use grnvs.Prelude.Int.{ℤ, pos, negsuc, ◌-ℤ◌}
use grnvs.Memory.{Bytes, zeros, string_at, write_at, str_equal}
use grnvs.Decimal.{decimal}
use grnvs.Netstring as Net
use grnvs.Netstring.{
  bufsize, Reply, World, Order, is_zero, send_message, check_message, recv_message, update_nets,
}
use grnvs.Netstring.Texts.{codes}
pub use Steps.*

-- `strcpy(text, …); strcat(text, …);` and `sendMessage(fd, text, sendbuf)`
unfoldable pub send_text : Order → Socket → Bytes → Cmd (Unit {0})
send_text order fd text = do
  access (write_at 0 (text ++ 0 ∷ []) (zeros bufsize))
  on fd (send_message order text)

-- `netStringsInBuf = recvMessage(fd, recvbuf)`
unfoldable pub receive : Order → ℕ → Socket → Cmd (Unit {0})
receive order fuel fd = do
  (resp, nets) ← on fd (recv_message order fuel)
  λ s.
      done tt
        (record s { recvbuf = resp; nets_in_buf = elim nets [ none ↦ negsuc 0 | some n ↦ pos n ] })

-- `if (netStringsInBuf == 0) netStringsInBuf = recvMessage(fd, recvbuf);`
unfoldable pub receive_more : Order → ℕ → Socket → Cmd (Unit {0})
unfolding receive
receive_more order fuel fd = do
  n ← λ s. done s.nets_in_buf s
  if is_zero n then receive order fuel fd else pure tt

-- The string at `startOfNetstring`
abbrev pub current : Cmd Bytes
current s = access (string_at s.recvbuf s.start) s

-- `checkMessage(fd, expected, startOfNetstring)`
unfoldable pub check : Order → Socket → (expected : Bytes) → Cmd (Unit {0})
check order fd expected = do
  (buf, start) ← λ s. done (s.recvbuf, s.start) s
  on fd (check_message order expected (drop start buf))

-- `netStringsInBuf--; startOfNetstring = updateNets(netStringsInBuf, startOfNetstring, recvbuf);`
unfoldable pub advance : Cmd (Unit {0})
advance s =
    let nets = s.nets_in_buf -ℤ pos 1 in
    elim (update_nets nets s.start s.recvbuf) [
      | none ↦ crash
      | some start ↦ done tt (record s { nets_in_buf = nets; start = start })
    ]

-- `if (startOfNetstring[0] != kind || startOfNetstring[1] != ' ') checkMessage(…)`
unfoldable pub check_kind : Order → Socket → (kind : ℕ) → (expected : Bytes) → Cmd (Unit {0})
unfolding check
check_kind order fd kind expected = do
  (buf, start) ← λ s. done (s.recvbuf, s.start) s
  if get_or (drop start buf) 0 0 == kind && get_or (drop start buf) 1 0 == b' '
      then pure tt
      else check order fd expected

-- `strcpy(token, recvbuf + offset)`
unfoldable pub take_token : (offset : ℕ) → Cmd (Unit {0})
take_token offset s = elim (string_at s.recvbuf offset) [
  | none ↦ crash
  | some token ↦ done tt (record s { token = token })
]

-- A call that must succeed: if it fails, descriptors are closed, and `exit(1)`.
abbrev pub require : Bool → List Descriptor → Cmd (Unit {0})
require success closing s = if success then done tt s else ended (pos 1) (close_all closing s)

-- `socket` or `accept` has given the descriptor.
abbrev pub opened : Descriptor → Cmd (Unit {0})
opened d s = done tt (set_open d true s)

-- `close(d)`
abbrev pub close : Descriptor → Cmd (Unit {0})
close d s = done tt (set_open d false s)

-- The protocol on the control socket, up to the token.
unfoldable pub greet : Order → ℕ → (nick : Bytes) → Cmd (Unit {0})
unfolding receive receive_more check check_kind advance take_token
greet order fuel nick = do
  on control (send_message order (codes "C GRNVS V:1.0"))
  receive order fuel control
  check order control (codes "S GRNVS V:1.0")
  advance
  send_text order control (codes "C " ++ nick)
  receive_more order fuel control
  check_kind order control b'S' (codes "S <token>")
  start ← λ s. done s.start s
  take_token (start + 2)
  advance

-- The data socket's set up: the port is sent on the control socket. A failed call closes what is open,
-- but for a failed `socket`.
unfoldable pub open_data : Order → Calls → Cmd (Unit {0})
unfolding send_text
open_data order calls = do
  require calls.socket_listen []
  opened sd_listen
  require calls.bind (sd_control ∷ sd_listen ∷ [])
  require calls.listen (sd_control ∷ sd_listen ∷ [])
  send_text order control (codes "C " ++ decimal calls.port)
  require calls.accept (sd_control ∷ sd_listen ∷ [])
  opened sd_data

-- `startOfNetstring = 0;`
unfoldable pub restart : Cmd (Unit {0})
restart s = done tt (record s { start = 0 })

-- `T `, the token behind it, and its check
unfoldable pub check_token : Order → Cmd (Unit {0})
unfolding check
check_token order = do
  token ← λ s. done s.token s
  access (write_at 0 ((codes "T " ++ token) ++ 0 ∷ []) (zeros bufsize))
  check order data_socket (codes "T " ++ token)

-- `C ` and the token behind it, sent on the control socket
unfoldable pub send_dtoken : Order → Cmd (Unit {0})
unfolding send_text
send_dtoken order = do token ← λ s. done s.token s; send_text order control (codes "C " ++ token)

-- The protocol on the data socket; then the two descriptors of the data connection are closed.
unfoldable pub deliver : Order → ℕ → (nick msg : Bytes) → Cmd (Unit {0})
unfolding restart receive receive_more check check_token check_kind advance take_token send_text
deliver order fuel nick msg = do
  restart
  receive order fuel data_socket
  check order data_socket (codes "T GRNVS V:1.0")
  advance
  send_text order data_socket (codes "D " ++ nick)
  receive_more order fuel data_socket
  check_token order
  advance
  send_text order data_socket (codes "D " ++ msg)
  receive_more order fuel data_socket
  check_kind order data_socket b'T' (codes "T <dtoken>")
  take_token 2
  advance
  close sd_listen
  close sd_data

-- The end of the protocol on the control socket.
unfoldable pub finish : Order → ℕ → (msg : Bytes) → Cmd (Unit {0})
unfolding receive_more check advance send_dtoken
finish order fuel msg = do
  receive_more order fuel control
  check order control (codes "S " ++ decimal (length msg))
  advance
  send_dtoken order
  receive_more order fuel control
  check order control (codes "S ACK")
  advance
  close sd_control

-- `assignment4` behind the parsing of the address
unfoldable pub protocol : Order → ℕ → Calls → (nick msg : Bytes) → Cmd (Unit {0})
unfolding greet open_data deliver finish
protocol order fuel calls nick msg = do
  require calls.socket_control []
  opened sd_control
  require calls.connect (sd_control ∷ [])
  greet order fuel nick
  open_data order calls
  deliver order fuel nick msg
  finish order fuel msg

-- `assignment4`: a wrong address ends it at once.
unfoldable pub assignment4 : Order → ℕ → Calls → (nick msg : Bytes) → Cmd (Unit {0})
unfolding protocol
assignment4 order fuel calls nick msg =
    let run = protocol order fuel calls nick msg in if calls.inet_pton then run else pure tt
