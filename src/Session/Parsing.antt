-- ===== src/Session/Parsing.antt =====
-- What the argument parser of assignment4 takes from a command line.
use grnvs.Prelude.{
  ℕ, zero, suc, ◌≡◌, refl, arith, false, ◌&&◌, none, some, List, [], ◌∷◌, ◌==◌, inl, inr,
  if◌then◌else◌, ap, ◌∙◌,
}
use grnvs.Prelude.Int.{ℤ, pos}
use grnvs.Memory.{Bytes}
use grnvs.Args.{Word, argument, option, accepted, parsed, argp_parse, strtol, to_int}
use grnvs.Args.Rules.{arguments, last_option, after-argument, after-option, Parse-cases}
use grnvs.Session.Arguments.{Arguments, parse_opt, absent, defaults, parse_args}

-- The port that the last port option gives, if its text is a number.
abbrev pub last_port : List Word → ℤ → ℤ
last_port [] before = before
last_port (argument s ∷ words) before = last_port words before
last_port (option k s ∷ words) before =
    last_port words (if k == b'p' then to_int (strtol s).value else before)

-- The arguments at place `n` and behind it are the nick and the destination.
abbrev pub Placed : ℕ → List Bytes → Arguments → Arguments → Type 0
Placed n [] args args' = (args'.nick ≡ args.nick) × (args'.dst ≡ args.dst)
Placed zero (s ∷ rest) args args' = Placed 1 rest (record args { nick = some s }) args'
Placed (suc zero) (s ∷ rest) args args' = Placed 2 rest (record args { dst = some s }) args'
Placed (suc (suc n)) (s ∷ rest) args args' = ⊥

-- What a parse from `args` at place `n` to `args'` has read.
pub record Reads (n : ℕ) (words : List Word) (args args' : Arguments) : Type 0 where
  pub placed : Placed n (arguments words) args args'
  pub msg : args'.msg ≡ last_option b'm' words args.msg
  pub file : args'.file ≡ last_option b'f' words args.file
  pub port : args'.port ≡ last_port words args.port

Placed-same :
    (n : ℕ) (rest : List Bytes) (a b c : Arguments)
    → a.nick ≡ b.nick
    → a.dst ≡ b.dst
    → Placed n rest a c
    → Placed n rest b c
Placed-same n [] a b c e f (h, k) = (h ∙ e, k ∙ f)
Placed-same zero (s ∷ rest) a b c e f h =
    Placed-same 1 rest (record a { nick = some s }) (record b { nick = some s }) c refl f h
Placed-same (suc zero) (s ∷ rest) a b c e f h =
    Placed-same 2 rest (record a { dst = some s }) (record b { dst = some s }) c e refl h
Placed-same (suc (suc n)) (s ∷ rest) a b c e f h = h

argument-Reads :
    (n : ℕ) (s : Bytes) (words : List Word) (args next args' : Arguments)
    → parse_opt n (argument s) args ≡ accepted next
    → Reads (suc n) words next args'
    → Reads n (argument s ∷ words) args args'
unfolding parse_opt
argument-Reads zero s words args next args' e r =
    let next_nick : next ≡ record args { nick = some s } = ground (arith, e) in
    record {
      placed =
          Placed-same 1 (arguments words) next (record args { nick = some s }) args'
            (ap (λ (a : Arguments). a.nick) next_nick) (ap (λ (a : Arguments). a.dst) next_nick)
            r.placed;
      msg = ground (arith, next_nick, r.msg);
      file = ground (arith, next_nick, r.file);
      port = ground (arith, next_nick, r.port);
    }
argument-Reads (suc zero) s words args next args' e r =
    let next_dst : next ≡ record args { dst = some s } = ground (arith, e) in
    record {
      placed =
          Placed-same 2 (arguments words) next (record args { dst = some s }) args'
            (ap (λ (a : Arguments). a.nick) next_dst) (ap (λ (a : Arguments). a.dst) next_dst)
            r.placed;
      msg = ground (arith, next_dst, r.msg);
      file = ground (arith, next_dst, r.file);
      port = ground (arith, next_dst, r.port);
    }
argument-Reads (suc (suc n)) s words args next args' e r = absurd (ground (arith, e))

option-Reads :
    (n key : ℕ) (s : Bytes) (words : List Word) (args next args' : Arguments)
    → parse_opt n (option key s) args ≡ accepted next
    → Reads n words next args'
    → Reads n (option key s ∷ words) args args'
unfolding parse_opt
option-Reads n key s words args next args' e r = record {
  placed =
      Placed-same n (arguments words) next args args' (ground (arith, e)) (ground (arith, e))
        r.placed;
  msg = ground (arith, e, r.msg);
  file = ground (arith, e, r.file);
  port = ground (arith, e, r.port);
}

pub parse-Reads :
    (n : ℕ) (words : List Word) (args args' : Arguments)
    → argp_parse parse_opt n words args ≡ parsed args'
    → Reads n words args args'
parse-Reads n [] args args' h =
    let same : args' ≡ args = unfold argp_parse in cc in
    rw same (record { placed = (refl, refl); msg = refl; file = refl; port = refl })
parse-Reads n (argument s ∷ words) args args' h =
    let (next, e, f) = after-argument parse_opt n words args args' s h in
    argument-Reads n s words args next args' e (parse-Reads (suc n) words next args' f)
parse-Reads n (option key s ∷ words) args args' h =
    let (next, e, f) = after-option parse_opt n words args args' key s h in
    option-Reads n key s words args next args' e (parse-Reads n words next args' f)

-- The arguments that a command line gives: a nick, a destination, and a message or a file; of an
-- option given several times the last.
pub record IsRead (words : List Word) (args : Arguments) : Type 0 where
  pub nick : Bytes
  pub dst : Bytes
  pub places : arguments words ≡ nick ∷ dst ∷ []
  pub nick_place : args.nick ≡ some nick
  pub dst_place : args.dst ≡ some dst
  pub msg : args.msg ≡ last_option b'm' words none
  pub file : args.file ≡ last_option b'f' words none
  pub port : args.port ≡ last_port words (pos 1337)
  pub given : (absent args.file && absent args.msg) ≡ false

both-given :
    (words : List Word) (rest : List Bytes) (args : Arguments)
    → arguments words ≡ rest
    → Reads 0 words defaults args
    → Placed 0 rest defaults args
    → absent args.dst ≡ false
    → absent args.nick ≡ false
    → (absent args.file && absent args.msg) ≡ false
    → IsRead words args
both-given words [] args e r (no_nick, no_dst) has_dst has_nick g = absurd (ground (arith, no_nick))
both-given words (nick ∷ []) args e r (one, no_dst) has_dst has_nick g =
    absurd (ground (arith, no_dst))
both-given words (nick ∷ dst ∷ []) args e r (nick_place, dst_place) has_dst has_nick g = record {
  nick = nick;
  dst = dst;
  places = e;
  nick_place = nick_place;
  dst_place = dst_place;
  msg = r.msg;
  file = r.file;
  port = r.port;
  given = g;
}
both-given words (nick ∷ dst ∷ third ∷ rest) args e r none_left has_dst has_nick g =
    absurd none_left

-- The tests behind `argp_parse`
tests-pass :
    (words : List Word) (read args : Arguments)
    → argp_parse parse_opt 0 words defaults ≡ parsed read
    → parse_args words ≡ parsed args
    → (read ≡ args)
      × (absent read.dst ≡ false)
      × (absent read.nick ≡ false)
      × ((absent read.file && absent read.msg) ≡ false)
unfolding parse_args
tests-pass words read args e h =
    let tests = rw (e, parse_args) at h in
    (ground (arith, tests), ground (arith, tests), ground (arith, tests), ground (arith, tests))

-- What the parser accepts has exactly two arguments, the nick and the destination, and a message or a
-- file; each option has its last value or its default, the port the int of its number.
pub parse_args-IsRead :
    (words : List Word) (args : Arguments) → parse_args words ≡ parsed args → IsRead words args
unfolding parse_args
parse_args-IsRead words args h = elim (Parse-cases (argp_parse parse_opt 0 words defaults)) [
  | inl (read, e) ↦
      let (same, has_dst, has_nick, g) = tests-pass words read args e h in
      let r = parse-Reads 0 words defaults read e in
      rw (← same) (both-given words (arguments words) read refl r r.placed has_dst has_nick g)
  | inr (inl e) ↦ let stopped = rw (e, parse_args) at h in absurd (ground arith)
  | inr (inr e) ↦ let stopped = rw (e, parse_args) at h in absurd (ground arith)
]
