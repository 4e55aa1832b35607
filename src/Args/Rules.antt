-- ===== src/Args/Rules.antt =====
-- The words of a command line by themselves.
use grnvs.Prelude.{
  ℕ, suc, ◌≡◌, ◌⊎◌, inl, inr, refl, arith, Option, some, List, [], ◌∷◌, ◌==◌, if◌then◌else◌,
}
use grnvs.Memory.{Bytes}
use grnvs.Args.{
  Word, argument, option, Answer, accepted, unknown, refused, Parse, parsed, failed, usage,
  argp_parse,
}

-- The arguments, in order.
abbrev pub arguments : List Word → List Bytes
arguments [] = []
arguments (argument s ∷ words) = s ∷ arguments words
arguments (option key s ∷ words) = arguments words

-- The last value given to an option, or what it was before.
abbrev pub last_option : ℕ → List Word → Option Bytes → Option Bytes
last_option key [] before = before
last_option key (argument s ∷ words) before = last_option key words before
last_option key (option k s ∷ words) before =
    last_option key words (if k == key then some s else before)

pub Answer-cases :
    {A : Type 0} (o : Answer A) → ((a : A) × (o ≡ accepted a)) ⊎ ((o ≡ unknown) ⊎ (o ≡ refused))
Answer-cases (accepted a) = inl (a, refl)
Answer-cases unknown = inr (inl refl)
Answer-cases refused = inr (inr refl)

-- A parse that comes to its end has accepted its first word.
module _ {A : Type 0} (parse_opt : ℕ → Word → A → Answer A) (n : ℕ) (words : List Word)
    (a b : A) where
  pub after-argument :
      (s : Bytes)
      → argp_parse parse_opt n (argument s ∷ words) a ≡ parsed b
      → (next : A) × (parse_opt n (argument s) a ≡ accepted next)
        × (argp_parse parse_opt (suc n) words next ≡ parsed b)
  unfolding argp_parse
  after-argument s h = elim (Answer-cases (parse_opt n (argument s) a)) [
    | inl (next, e) ↦ (next, e, rw (e, argp_parse) at h)
    | inr (inl e) ↦ absurd (ground (arith, e, h))
    | inr (inr e) ↦ absurd (ground (arith, e, h))
  ]

  pub after-option :
      (key : ℕ) (s : Bytes)
      → argp_parse parse_opt n (option key s ∷ words) a ≡ parsed b
      → (next : A) × (parse_opt n (option key s) a ≡ accepted next)
        × (argp_parse parse_opt n words next ≡ parsed b)
  unfolding argp_parse
  after-option key s h = elim (Answer-cases (parse_opt n (option key s) a)) [
    | inl (next, e) ↦ (next, e, rw (e, argp_parse) at h)
    | inr (inl e) ↦ absurd (ground (arith, e, h))
    | inr (inr e) ↦ absurd (ground (arith, e, h))
  ]

pub Parse-cases :
    {A : Type 0} (o : Parse A) → ((a : A) × (o ≡ parsed a)) ⊎ ((o ≡ failed) ⊎ (o ≡ usage))
Parse-cases (parsed a) = inl (a, refl)
Parse-cases failed = inr (inl refl)
Parse-cases usage = inr (inr refl)
