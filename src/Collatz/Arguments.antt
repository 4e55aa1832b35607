-- ===== src/Collatz/Arguments.antt =====
-- assignment1/src/arguments.c: the argument parser. `argc` is at least the number of words and one.
use grnvs.Prelude.{ℕ, not, ◌||◌, List, [], ◌∷◌, ◌++◌, ◌==◌, leb, length, if◌then◌else◌}
use grnvs.Prelude.Int.{ℤ, pos}
use grnvs.Memory.{Bytes}
use grnvs.Netstring.Texts.{codes}
use grnvs.Args.{
  Argp, ArgpOption, Word, argument, option, Answer, accepted, unknown, refused, Parse, failed,
  argp_parse, strtol,
}

-- `struct arguments`
pub record Arguments : Type 0 where
  pub start : ℤ

unfoldable pub parse_opt : ℕ → Word → Arguments → Answer Arguments
unfolding strtol
parse_opt arg_num (argument arg) args =
    let tmp = strtol arg in
    if arg_num == 0
    then (if not (length tmp.rest == 0) || not tmp.moved
        then refused
        else accepted (record args { start = tmp.value }))
    else unknown
parse_opt arg_num (option key arg) args = unknown

abbrev args_doc : Bytes
args_doc = codes "START"

abbrev doc : Bytes
doc = codes "START" ++ 9 ∷ codes "the starting number" ++ 10 ∷ []

-- The table of options
abbrev pub options : List ArgpOption
options = []

abbrev pub argp : Argp Arguments
argp = record { options = options; parser = parse_opt; args_doc = args_doc; doc = doc }

-- `parse_args`: `memset` clears the arguments.
unfoldable pub parse_args : (argc : ℕ) → List Word → Parse Arguments
unfolding argp_parse parse_opt
parse_args argc words =
    if leb argc 1 then failed else argp_parse argp.parser 0 words (record { start = pos 0 })
