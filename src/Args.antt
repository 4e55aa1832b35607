-- ===== src/Args.antt =====
-- What the argument parsers use of the C library: `strtol` with base 10, the conversion to int, and
-- `argp_parse`. A command line is the options and arguments that argp finds in it, in order.
pub mod Strtol
pub mod Rules
mod Tests
use grnvs.Prelude.{
  ℕ, zero, suc, ◌+◌, ◌-◌, ◌*◌, ◌%◌, ◌^◌, Bool, true, false, Option, none, some, List, [], ◌∷◌, ◌==◌,
  ltb, if◌then◌else◌,
}
use grnvs.Prelude.Int.{ℤ, pos, negsuc, pos_part, neg_part, sub_ℕ}
use grnvs.Memory.{Bytes}
use grnvs.Decimal.{is_digit, scan, skip_spaces, saturate}

-- The result of `strtol`: its value, what stands at `*endptr`, and whether `endptr` has left the
-- start of the string.
pub record Number : Type 0 where
  pub value : ℤ
  pub rest : Bytes
  pub moved : Bool

unfoldable pub skip_digits : Bytes → Bytes
skip_digits [] = []
skip_digits (c ∷ s) = let rest = skip_digits s in if is_digit c then rest else c ∷ s

abbrev pub starts_with_digit : Bytes → Bool
starts_with_digit [] = false
starts_with_digit (c ∷ s) = is_digit c

-- The number behind the sign, in the string `whole`: with no digit there is no number.
unfoldable pub number : (negative : Bool) → (whole digits : Bytes) → Number
unfolding scan skip_digits
number negative whole digits =
    let value =
      if negative
      then sub_ℕ 0 (saturate (2 ^ 63) (scan 0 digits))
      else pos (saturate (2 ^ 63 - 1) (scan 0 digits)) in
    if starts_with_digit digits
    then record { value = value; rest = skip_digits digits; moved = true }
    else record { value = pos 0; rest = whole; moved = false }

unfoldable pub signed : (whole text : Bytes) → Number
unfolding number
signed whole [] = number false whole []
signed whole (c ∷ s) =
    if c == b'-'
    then number true whole s
    else if c == b'+'
    then number false whole s
    else number false whole (c ∷ s)

-- `strtol(arg, &endptr, 10)`
unfoldable pub strtol : Bytes → Number
unfolding signed skip_spaces
strtol arg = signed arg (skip_spaces arg)

-- `(int)` of a long: 32 bits are kept.
unfoldable pub to_int : ℤ → ℤ
to_int n =
    let word = (pos_part n + (2 ^ 32 - neg_part n % 2 ^ 32)) % 2 ^ 32 in
    if ltb word (2 ^ 31) then pos word else sub_ℕ word (2 ^ 32)

-- A word of the command line, as argp hands it to the parser.
pub data Word : Type 0 where
  argument : Bytes → Word
  option : (key : ℕ) → Bytes → Word

-- `struct argp_option`: a long name, the key that the parser gets, the name of the option's value, and
-- its help; the other fields are 0 in these programs.
pub record ArgpOption : Type 0 where
  pub name : Bytes
  pub key : ℕ
  pub arg : Bytes
  pub doc : Bytes

-- An option of the table has the key.
abbrev pub is_option : (key : ℕ) → List ArgpOption → Bool
is_option key [] = false
is_option key (o ∷ options) = if key == o.key then true else is_option key options

-- What a parser returns for a word: 0 with the changed `struct arguments`, ARGP_ERR_UNKNOWN, or
-- another error.
pub data Answer (A : Type 0) : Type 0 where
  accepted : A → Answer A
  unknown : Answer A
  refused : Answer A

-- `struct argp`: its table of options without the entry that ends it, its parser, and its help; the
-- other fields are 0 in these programs.
pub record Argp (A : Type 0) : Type 0 where
  pub options : List ArgpOption
  pub parser : ℕ → Word → A → Answer A
  pub args_doc : Bytes
  pub doc : Bytes

-- How a parse ends: with the arguments, with an error, or with a usage message from argp, which
-- ends the process.
pub data Parse (A : Type 0) : Type 0 where
  parsed : A → Parse A
  failed : Parse A
  usage : Parse A

-- `argp_parse`: the parser sees each word, an argument with the number of arguments before it. A word
-- that it does not know is an error of usage; any other error ends the parse.
unfoldable pub argp_parse :
    {A : Type 0} → (ℕ → Word → A → Answer A) → (arg_num : ℕ) → List Word → A → Parse A
argp_parse parse_opt arg_num [] args = parsed args
argp_parse parse_opt arg_num (argument s ∷ words) args =
    elim (parse_opt arg_num (argument s) args) [
      | accepted args' ↦ argp_parse parse_opt (suc arg_num) words args'
      | unknown ↦ usage
      | refused ↦ failed
    ]
argp_parse parse_opt arg_num (option key s ∷ words) args =
    elim (parse_opt arg_num (option key s) args) [
      | accepted args' ↦ argp_parse parse_opt arg_num words args'
      | unknown ↦ usage
      | refused ↦ failed
    ]

-- How a program ends: after a message about its arguments or files, by a usage message, by an exit or
-- an access outside a buffer before its function runs, or with the run of its function.
pub data Program (R : Type 0) : Type 0 where
  message : Program R
  shown_usage : Program R
  exited : Program R
  crashed : Program R
  ran : R → Program R
