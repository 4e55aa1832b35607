-- ===== src/Session/Accepting.antt =====
-- Which command lines the argument parser of assignment4 accepts.
use grnvs.Prelude.{
  ℕ, zero, suc, ◌+◌, ◌≡◌, ◌↔◌, ◌≤◌, refl, arith, Bool, true, false, not, ◌&&◌, ◌==◌, none, some,
  List, [], ◌∷◌, inl, inr, length,
}
use grnvs.Memory.{Bytes}
use grnvs.Args.{Word, argument, option, is_option, accepted, parsed, argp_parse, strtol}
use grnvs.Args.Rules.{
  arguments, last_option, after-argument, after-option, Answer-cases, Parse-cases,
}
use grnvs.Session.Arguments.{Arguments, options, parse_opt, absent, defaults, parse_args}
use grnvs.Session.Parsing.{Placed, parse-Reads, parse_args-IsRead}

-- The port's text is not a number.
abbrev bad_port : ℕ → Bytes → Bool
bad_port key s = key == b'p' && not (length (strtol s).rest == 0)

-- The options stand in the table of the program, and the text of a port is a number, or empty.
abbrev pub Allowed : List Word → Type 0
Allowed [] = Unit {0}
Allowed (argument s ∷ words) = Allowed words
Allowed (option key s ∷ words) =
    (is_option key options ≡ true) × (bad_port key s ≡ false) × Allowed words

-- Such options, two arguments, and a message or a file.
abbrev pub Valid : List Word → Type 0
Valid words =
    Allowed words
    × ((nick : Bytes) × (dst : Bytes) × (arguments words ≡ nick ∷ dst ∷ []))
    × ((absent (last_option b'f' words none) && absent (last_option b'm' words none)) ≡ false)

-- The parser knows the keys of its table and no others.
option-known :
    (n key : ℕ) (s : Bytes) (args : Arguments)
    → is_option key options ≡ true
    → bad_port key s ≡ false
    → (next : Arguments) × (parse_opt n (option key s) args ≡ accepted next)
unfolding parse_opt
option-known n key s args known number = elim (Answer-cases (parse_opt n (option key s) args)) [
  | inl (next, e) ↦ (next, e)
  | inr (inl e) ↦ absurd (ground (arith, e, known, number))
  | inr (inr e) ↦ absurd (ground (arith, e, known, number))
]

known-option :
    (n key : ℕ) (s : Bytes) (args next : Arguments)
    → parse_opt n (option key s) args ≡ accepted next
    → (is_option key options ≡ true) × (bad_port key s ≡ false)
unfolding parse_opt
known-option n key s args next e = (ground (arith, e), ground (arith, e))

accepted-argument :
    (n : ℕ) (s : Bytes) (args : Arguments)
    → suc n ≤ 2
    → (next : Arguments) × (parse_opt n (argument s) args ≡ accepted next)
unfolding parse_opt
accepted-argument zero s args h = (record args { nick = some s }, refl)
accepted-argument (suc zero) s args h = (record args { dst = some s }, refl)
accepted-argument (suc (suc n)) s args h = absurd (omega arith)

parse-accepts :
    (n : ℕ) (words : List Word) (args : Arguments)
    → Allowed words
    → n + length (arguments words) ≤ 2
    → (read : Arguments) × (argp_parse parse_opt n words args ≡ parsed read)
unfolding argp_parse
parse-accepts n [] args k h = (args, refl)
parse-accepts n (argument s ∷ words) args k h =
    let (next, e) = accepted-argument n s args (omega (arith, h)) in
    let (read, f) = parse-accepts (suc n) words next k (omega (arith, h)) in
    (read, rw (e, argp_parse) f)
parse-accepts n (option key s ∷ words) args (known, number, k) h =
    let (next, e) = option-known n key s args known number in
    let (read, f) = parse-accepts n words next k h in (read, rw (e, argp_parse) f)

Placed-pair :
    (rest : List Bytes) (nick dst : Bytes) (read : Arguments)
    → rest ≡ nick ∷ dst ∷ []
    → Placed 0 rest defaults read
    → (read.nick ≡ some nick) × (read.dst ≡ some dst)
Placed-pair rest nick dst read e h = rw e at h

parsed-Allowed :
    (n : ℕ) (words : List Word) (args read : Arguments)
    → argp_parse parse_opt n words args ≡ parsed read
    → Allowed words
parsed-Allowed n [] args read e = tt
parsed-Allowed n (argument s ∷ words) args read e =
    let (next, _, f) = after-argument parse_opt n words args read s e in
    parsed-Allowed (suc n) words next read f
parsed-Allowed n (option key s ∷ words) args read e =
    let (next, known, f) = after-option parse_opt n words args read key s e in
    let (is_known, number) = known-option n key s args next known in
    (is_known, number, parsed-Allowed n words next read f)

Valid-parsed :
    (words : List Word) → Valid words → (args : Arguments) × (parse_args words ≡ parsed args)
unfolding parse_args
Valid-parsed words (k, (nick, dst, two), given) =
    let (read, e) = parse-accepts 0 words defaults k (rw two (omega arith)) in
    let r = parse-Reads 0 words defaults read e in
    let (has_nick, has_dst) = Placed-pair (arguments words) nick dst read two r.placed in
    (read, rw (e, parse_args, has_dst, has_nick, r.file, r.msg, given) refl)

parse_args-Allowed :
    (words : List Word) (args : Arguments) → parse_args words ≡ parsed args → Allowed words
unfolding parse_args
parse_args-Allowed words args h = elim (Parse-cases (argp_parse parse_opt 0 words defaults)) [
  | inl (read, e) ↦ parsed-Allowed 0 words defaults read e
  | inr (inl e) ↦ let stopped = rw (e, parse_args) at h in absurd (ground arith)
  | inr (inr e) ↦ let stopped = rw (e, parse_args) at h in absurd (ground arith)
]

-- The command lines that the parser accepts are the ones with two arguments, a message or a file, no
-- option but those of the program's table and no port with a text that `strtol` does not read to its
-- end.
pub parse_args-accepts :
    (words : List Word) → ((args : Arguments) × (parse_args words ≡ parsed args)) ↔ Valid words
parse_args-accepts words = (
  λ (args, h).
      let r = parse_args-IsRead words args h in
      (parse_args-Allowed words args h, (r.nick, r.dst, r.places), rw (← r.file, ← r.msg) r.given),
  Valid-parsed words,
)
