-- ===== src/Ethstats/Arguments.antt =====
-- assignment2/src/arguments.c: the argument parser.
use grnvs.Prelude.{ℕ, List, [], ◌∷◌, ◌++◌, ◌==◌, length, if◌then◌else◌}
use grnvs.Prelude.Int.{ℤ, pos}
use grnvs.Memory.{Bytes}
use grnvs.Netstring.Texts.{codes}
use grnvs.Args.{
  Argp, ArgpOption, Word, argument, option, Answer, accepted, unknown, refused, Parse, argp_parse,
  strtol, to_int,
}

-- `struct arguments`
pub record Arguments : Type 0 where
  pub interface : Bytes
  pub frames : ℤ

unfoldable pub parse_opt : ℕ → Word → Arguments → Answer Arguments
unfolding strtol to_int
parse_opt arg_num (argument arg) args =
    let number = strtol arg in
    if arg_num == 0
    then (if length number.rest == 0
        then accepted (record args { frames = to_int number.value })
        else refused)
    else unknown
parse_opt arg_num (option key arg) args =
    if key == b'i' then accepted (record args { interface = arg }) else unknown

abbrev args_doc : Bytes
args_doc = codes "NUM"

abbrev doc : Bytes
doc =
    (codes "ethstats: Analyze and count raw Ethernet frames" ++ 10 ∷ [])
    ++ (codes "-i" ++ 9 ∷ codes "   interface from which frames should be read" ++ 10 ∷ [])
    ++ (codes "NUM" ++ 9 ∷ codes "   number of frames to read before printing summary" ++ 10 ∷ [])

-- The table of options
abbrev pub options : List ArgpOption
options = record { name = codes "interface"; key = b'i'; arg = codes "interface"; doc = [] } ∷ []

abbrev pub argp : Argp Arguments
argp = record { options = options; parser = parse_opt; args_doc = args_doc; doc = doc }

-- `parse_args`, with the defaults
unfoldable pub parse_args : List Word → Parse Arguments
unfolding argp_parse parse_opt
parse_args words =
    argp_parse argp.parser 0 words (record { interface = codes "eth0"; frames = pos 10 })
