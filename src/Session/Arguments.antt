-- ===== src/Session/Arguments.antt =====
-- assignment4/src/arguments.c: the argument parser.
use grnvs.Prelude.{
  ℕ, Bool, true, false, ◌&&◌, Option, none, some, List, [], ◌∷◌, ◌++◌, ◌==◌, length, if◌then◌else◌,
}
use grnvs.Prelude.Int.{ℤ, pos}
use grnvs.Memory.{Bytes}
use grnvs.Netstring.Texts.{codes}
use grnvs.Args.{
  Argp, ArgpOption, Word, argument, option, Answer, accepted, unknown, refused, Parse, parsed,
  failed, usage, argp_parse, strtol, to_int,
}

-- `struct arguments`, where `none` is NULL
pub record Arguments : Type 0 where
  pub nick : Option Bytes
  pub dst : Option Bytes
  pub port : ℤ
  pub msg : Option Bytes
  pub file : Option Bytes

unfoldable pub parse_opt : ℕ → Word → Arguments → Answer Arguments
unfolding strtol to_int
parse_opt arg_num (argument arg) args =
    if arg_num == 1
    then accepted (record args { dst = some arg })
    else if arg_num == 0
    then accepted (record args { nick = some arg })
    else unknown
parse_opt arg_num (option key arg) args =
    if key == b'm'
    then accepted (record args { msg = some arg })
    else if key == b'p'
    then (let number = strtol arg in
        if length number.rest == 0
        then accepted (record args { port = to_int number.value })
        else refused)
    else if key == b'f'
    then accepted (record args { file = some arg })
    else unknown

abbrev args_doc : Bytes
args_doc = codes "<nick> <destination>"

abbrev doc : Bytes
doc =
    (codes "  <nick>         the nick that should be displayed on the server" ++ 10 ∷ [])
    ++ (codes "  <destination>  the destination IPv6 address" ++ 10 ∷ [])
    ++ (10 ∷ [])
    ++ (codes "  -m <message> or -f <file> must be given!" ++ 10 ∷ [])

-- The table of options
abbrev pub options : List ArgpOption
options =
    record {
      name = codes "file";
      key = b'f';
      arg = codes "file";
      doc = codes "a file to use as message, -m will be ignored";
    }
    ∷ record {
      name = codes "port";
      key = b'p';
      arg = codes "port";
      doc = codes "the port the client should connect to (optional, default: 1337)";
    }
    ∷ record {
      name = codes "message";
      key = b'm';
      arg = codes "message";
      doc = codes "the message to send, spaces might need to be quoted in the shell";
    }
    ∷ []

abbrev pub argp : Argp Arguments
argp = record { options = options; parser = parse_opt; args_doc = args_doc; doc = doc }

abbrev pub absent : Option Bytes → Bool
absent none = true
absent (some s) = false

-- `memset`, and the default port
abbrev pub defaults : Arguments
defaults = record { nick = none; dst = none; port = pos 1337; msg = none; file = none }

unfoldable pub parse_args : List Word → Parse Arguments
unfolding argp_parse parse_opt
parse_args words = elim (argp_parse argp.parser 0 words defaults) [
  | failed ↦ failed
  | usage ↦ usage
  | parsed args ↦
      if absent args.dst
      then failed
      else if absent args.nick
      then failed
      else if absent args.file && absent args.msg
      then failed
      else parsed args
]
