-- ===== src/Prelude/Run.antt =====
-- Commands over a state: they return a value and the new state, fault (what C leaves undefined), or
-- run out of the fuel of a loop.
use mathlib.Core.Path.{◌≡◌}

pub data Run (S A : Type 0) : Type 0 where
  ok : A → S → Run S A
  fault : Run S A
  out_of_fuel : Run S A

abbrev pub Cmd : Type 0 → Type 0 → Type 0
Cmd S A = S → Run S A

abbrev pub pure : {S A : Type 0} → A → Cmd S A
pure a s = ok a s

abbrev pub continue : {S A B : Type 0} → (A → Cmd S B) → Run S A → Run S B
continue next (ok a s) = next a s
continue next fault = fault
continue next out_of_fuel = out_of_fuel

infixl 5 ◌>>=◌ ◌>>◌
abbrev pub ◌>>=◌ : {S A B : Type 0} → Cmd S A → (A → Cmd S B) → Cmd S B
◌>>=◌ first next s = continue next (first s)

abbrev pub ◌>>◌ : {S A B : Type 0} → Cmd S A → Cmd S B → Cmd S B
◌>>◌ first second s = continue (λ _. second) (first s)

-- A run that ends well, with a postcondition.
abbrev pub Ends : {S A : Type 0} → (A → S → Type 0) → Run S A → Type 0
Ends {S} {A} P r = (a : A) × (s : S) × (r ≡ ok a s) × P a s

ok-continue :
    {S A B : Type 0} (r : Run S A) (next : A → Cmd S B) (a : A) (s : S)
    → r ≡ ok a s
    → continue next r ≡ next a s
ok-continue r next a s e = rw e
