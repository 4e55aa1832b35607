-- ===== src/Session/Main.antt =====
-- assignment4/src/assignment4.c, `main`: the argument parser, the file that replaces the message, and
-- `assignment4`. The calls on sockets answer as the address and the port let them.
use grnvs.Prelude.{false, ℕ, ◌+◌, ◌-◌, ◌%◌, ◌^◌, Option, none, some, List, [], take}
use grnvs.Prelude.Int.{ℤ, pos, pos_part, neg_part}
use grnvs.Memory.{Bytes, zeros, string_at, write_at}
use grnvs.Args.{Word, Program, message, shown_usage, exited, crashed, ran, parsed, failed, usage}
use grnvs.Netstring.{bufsize, Reply, Order}
use grnvs.Session.{Calls, Client, Step, assignment4}
use grnvs.Session.Arguments.{Arguments, parse_args}

-- What `open` and `read` of the file give: they fail, or the first bytes of the file.
pub data File : Type 0 where
  cannot_open cannot_read : File
  holds : Bytes → File

-- `read(fd, buffer, sizeof(buffer) - 1)` into a cleared buffer, as a string
unfoldable pub file_text : Bytes → Option Bytes
file_text bytes = elim (write_at 0 (take (bufsize - 1) bytes) (zeros bufsize)) [
  | none ↦ none
  | some buffer ↦ string_at buffer 0
]

-- The message: the file's, where one is given; `none` is NULL. A file that cannot be read ends the
-- program with a message.
unfoldable pub message_text : File → Arguments → Program (Option Bytes)
unfolding file_text
message_text file args = elim args.file [
  | none ↦ ran args.msg
  | some name ↦ elim file [
    | cannot_open ↦ message
    | cannot_read ↦ message
    | holds bytes ↦ elim (file_text bytes) [ none ↦ crashed | some text ↦ ran (some text) ]
  ]
]

-- The int as an `in_port_t`
abbrev pub port_of : ℤ → ℕ
port_of port = (pos_part port + (2 ^ 16 - neg_part port % 2 ^ 16)) % 2 ^ 16

-- The variables of `assignment4` at its start, with what the peers will send.
abbrev pub started : (control_in data_in : List Reply) → Client
started control_in data_in = record {
  control_in = control_in;
  data_in = data_in;
  control_out = [];
  data_out = [];
  printed = [];
  recvbuf = zeros bufsize;
  nets_in_buf = pos 0;
  start = 0;
  token = [];
  control_open = false;
  listen_open = false;
  data_open = false;
}

module _ (order : Order) (fuel : ℕ) (calls : (dst : Bytes) → (port : ℕ) → Calls)
    (control_in data_in : List Reply) where
  -- `assignment4(args.dst, args.port, args.nick, args.msg)`
  unfoldable pub start_session :
      (args : Arguments) → (msg : Option Bytes) → Program (Step (Unit {0}))
  unfolding assignment4
  start_session args none = crashed
  start_session args (some msg) = elim args.dst [
    | none ↦ crashed
    | some dst ↦ elim args.nick [
      | none ↦ crashed
      | some nick ↦ ran (
          assignment4 order fuel (calls dst (port_of args.port)) nick msg
            (started control_in data_in))
    ]
  ]

  -- What follows the parsing.
  unfoldable pub launch : File → Arguments → Program (Step (Unit {0}))
  unfolding message_text start_session
  launch file args = elim (message_text file args) [
    | message ↦ message
    | shown_usage ↦ shown_usage
    | exited ↦ exited
    | crashed ↦ crashed
    | ran msg ↦ start_session args msg
  ]

  unfoldable pub main : File → List Word → Program (Step (Unit {0}))
  unfolding parse_args launch
  main file words = elim (parse_args words) [
    | failed ↦ message
    | usage ↦ shown_usage
    | parsed args ↦ launch file args
  ]
