-- ===== src/Ethstats/Table/Sort.antt =====
-- Taking the lowest type out of the table again and again, as the summary of assignment2.c does,
-- visits every cell in ascending order of type.
use grnvs.Prelude.{
  ℕ, zero, suc, ◌<◌, ◌≤◌, ◌≡◌, ◌≢◌, refl, true, false, none, some, [], ◌∷◌, arith, ◌==◌, ltb,
  if◌then◌else◌, length, Bool-cases, inl, inr, ◌∙◌, ap, sym, ==_iff,
}
use grnvs.TypeInfo.Seg.{Cell, Cells}
use grnvs.TypeInfo.Find.{min_cell}
use grnvs.TypeInfo.Remove.{erase_type}
use grnvs.Ethstats.Table.{find_entry, Distinct}

-- The cells in the order of the summary, in at most `rounds` rounds.
unfoldable pub sort : ℕ → Cells → Cells
sort zero cs = []
sort (suc rounds) [] = []
sort (suc rounds) (c ∷ cs) =
    let m = min_cell c (c ∷ cs) in m ∷ sort rounds (erase_type m.type (c ∷ cs))

-- Every type in the list meets `P`.
abbrev pub AllTypes : (ℕ → Type 0) → Cells → Type 0
AllTypes P [] = Unit {0}
AllTypes P (c ∷ cs) = P c.type × AllTypes P cs

-- Strictly ascending types.
abbrev pub Ascending : Cells → Type 0
Ascending [] = Unit {0}
Ascending (c ∷ cs) = AllTypes (λ t. c.type < t) cs × Ascending cs

AllTypes-min_cell :
    (P : ℕ → Type 0) (c : Cell) (cs : Cells) → P c.type → AllTypes P cs → P (min_cell c cs).type
unfolding min_cell
AllTypes-min_cell P c [] h k = h
AllTypes-min_cell P c (d ∷ ds) h (hd, k) = elim (Bool-cases (ltb d.type c.type)) [
  | inl less ↦ rw (less, min_cell) (AllTypes-min_cell P d ds hd k)
  | inr not_less ↦ rw (not_less, min_cell) (AllTypes-min_cell P c ds h k)
]

AllTypes-erase :
    (P : ℕ → Type 0) (t : ℕ) (cs : Cells) → AllTypes P cs → AllTypes P (erase_type t cs)
unfolding erase_type
AllTypes-erase P t [] k = tt
AllTypes-erase P t (c ∷ cs) (h, k) = elim (Bool-cases (c.type == t)) [
  | inl hit ↦ rw hit k
  | inr miss ↦ rw miss (h, AllTypes-erase P t cs k)
]

AllTypes-sort :
    (P : ℕ → Type 0) (rounds : ℕ) (cs : Cells) → AllTypes P cs → AllTypes P (sort rounds cs)
unfolding sort
AllTypes-sort P zero cs k = tt
AllTypes-sort P (suc rounds) [] k = tt
AllTypes-sort P (suc rounds) (c ∷ cs) (h, k) =
    let m = min_cell c (c ∷ cs) in
    (
      AllTypes-min_cell P c (c ∷ cs) h (h, k),
      AllTypes-sort P rounds (erase_type m.type (c ∷ cs)) (AllTypes-erase P m.type (c ∷ cs) (h, k)),
    )

min_cell-nil : (c : Cell) → min_cell c [] ≡ c
unfolding min_cell
min_cell-nil c = refl

min_cell-less :
    (c d : Cell) (ds : Cells) → ltb d.type c.type ≡ true → min_cell c (d ∷ ds) ≡ min_cell d ds
unfolding min_cell
min_cell-less c d ds h = rw (h, min_cell) refl

min_cell-not_less :
    (c d : Cell) (ds : Cells) → ltb d.type c.type ≡ false → min_cell c (d ∷ ds) ≡ min_cell c ds
unfolding min_cell
min_cell-not_less c d ds h = rw (h, min_cell) refl

-- The lowest cell is below the cell that it starts from and all the others.
min_cell-le : (c : Cell) (cs : Cells) → (min_cell c cs).type ≤ c.type
unfolding min_cell
min_cell-le c [] = omega arith
min_cell-le c (d ∷ ds) = ground (arith, min_cell-le d ds, min_cell-le c ds)

AllTypes-weaken :
    (P Q : ℕ → Type 0) (cs : Cells) → ((t : ℕ) → P t → Q t) → AllTypes P cs → AllTypes Q cs
AllTypes-weaken P Q [] f k = tt
AllTypes-weaken P Q (c ∷ cs) f (h, k) = (f c.type h, AllTypes-weaken P Q cs f k)

-- The lowest cell, under a name of its own, since the predicates below compute past it.
min_cell-le_all :
    (c : Cell) (cs : Cells) (m : Cell) → m ≡ min_cell c cs → AllTypes (λ t. m.type ≤ t) cs
min_cell-le_all c [] m e = tt
min_cell-le_all c (d ∷ ds) m e = elim (Bool-cases (ltb d.type c.type)) [
  | inl less ↦
      let e' = e ∙ min_cell-less c d ds less in
      (omega (arith, ap (λ (x : Cell). x.type) e', min_cell-le d ds), min_cell-le_all d ds m e')
  | inr not_less ↦
      let e' = e ∙ min_cell-not_less c d ds not_less in
      (ground (arith, ap (λ (x : Cell). x.type) e', min_cell-le c ds), min_cell-le_all c ds m e')
]

-- The lowest cell is one of the cells, and the table answers with its counters.
find_entry-min_cell :
    (c : Cell) (cs : Cells) (m : Cell)
    → m ≡ min_cell c cs
    → find_entry c.type cs ≡ none
    → Distinct cs
    → find_entry m.type (c ∷ cs) ≡ some (m.frames, m.bytes)
find_entry-min_cell c [] m e h k = let e' = e ∙ min_cell-nil c in rw e' (ground arith)
find_entry-min_cell c (d ∷ ds) m e h (hd, k) = elim (Bool-cases (ltb d.type c.type)) [
  | inl less ↦
      let e' = e ∙ min_cell-less c d ds less in
      ground
        (arith, find_entry-min_cell d ds m e' hd k, ap (λ (x : Cell). x.type) e', min_cell-le d ds)
  | inr not_less ↦
      let e' = e ∙ min_cell-not_less c d ds not_less in
      ground (arith, find_entry-min_cell c ds m e', ap (λ (x : Cell). x.type) e', min_cell-le c ds)
]

find_entry-erase :
    (t s : ℕ) (cs : Cells)
    → Distinct cs
    → find_entry t (erase_type s cs) ≡ (if s == t then none else find_entry t cs)
unfolding erase_type
find_entry-erase t s [] k = ground arith
find_entry-erase t s (c ∷ cs) (h, k) = ground (arith, find_entry-erase t s cs k)

Distinct-erase : (s : ℕ) (cs : Cells) → Distinct cs → Distinct (erase_type s cs)
unfolding erase_type
Distinct-erase s [] k = tt
Distinct-erase s (c ∷ cs) (h, k) = elim (Bool-cases (c.type == s)) [
  | inl hit ↦ rw hit k
  | inr miss ↦ rw miss (ground (arith, find_entry-erase c.type s cs k), Distinct-erase s cs k)
]

-- The C loop compares the first node with itself first, which changes nothing.
min_cell_self : (c : Cell) (cs : Cells) → min_cell c (c ∷ cs) ≡ min_cell c cs
min_cell_self c cs = min_cell-not_less c c cs (ground arith)

AllTypes-strict :
    (s : ℕ) (cs : Cells)
    → find_entry s cs ≡ none
    → AllTypes (λ t. s ≤ t) cs
    → AllTypes (λ t. s < t) cs
AllTypes-strict s [] h k = tt
AllTypes-strict s (c ∷ cs) h (le, k) = (ground arith, AllTypes-strict s cs (ground arith) k)

AllTypes-erase_strict :
    (s : ℕ) (cs : Cells)
    → Distinct cs
    → AllTypes (λ t. s ≤ t) cs
    → AllTypes (λ t. s < t) (erase_type s cs)
unfolding erase_type
AllTypes-erase_strict s [] k a = tt
AllTypes-erase_strict s (c ∷ cs) (h, k) (le, a) = elim (Bool-cases (c.type == s)) [
  | inl hit ↦ rw hit (AllTypes-strict s cs (ground arith) a)
  | inr miss ↦ rw miss (ground arith, AllTypes-erase_strict s cs k a)
]

length-erase :
    (s : ℕ) (cs : Cells) → find_entry s cs ≢ none → suc (length (erase_type s cs)) ≡ length cs
unfolding erase_type
length-erase s [] h = absurd (h refl)
length-erase s (c ∷ cs) h = ground (arith, length-erase s cs)

-- The lowest cell, as the facts that the induction on the rounds uses.
pub record IsLowest (m : Cell) (cs : Cells) : Type 0 where
  pub found : find_entry m.type cs ≡ some (m.frames, m.bytes)
  pub size : suc (length (erase_type m.type cs)) ≡ length cs
  pub above : AllTypes (λ t. m.type < t) (erase_type m.type cs)
  pub distinct : Distinct (erase_type m.type cs)

pub min_cell-IsLowest :
    (c : Cell) (cs : Cells) → Distinct (c ∷ cs) → IsLowest (min_cell c (c ∷ cs)) (c ∷ cs)
min_cell-IsLowest c cs (h, k) =
    let m = min_cell c (c ∷ cs) in
    let found = find_entry-min_cell c cs m (min_cell_self c cs) h k in
    record {
      found = found;
      size = length-erase m.type (c ∷ cs) (λ e. cc found);
      above = AllTypes-erase_strict m.type (c ∷ cs) (h, k) (min_cell-le_all c (c ∷ cs) m refl);
      distinct = Distinct-erase m.type (c ∷ cs) (h, k);
    }

-- The summary's order is strictly ascending.
pub sort-Ascending : (rounds : ℕ) (cs : Cells) → Distinct cs → Ascending (sort rounds cs)
unfolding sort
sort-Ascending zero cs k = tt
sort-Ascending (suc rounds) [] k = tt
sort-Ascending (suc rounds) (c ∷ cs) k =
    let m = min_cell c (c ∷ cs) in
    let low = min_cell-IsLowest c cs k in
    (
      AllTypes-sort (λ t. m.type < t) rounds (erase_type m.type (c ∷ cs)) low.above,
      sort-Ascending rounds (erase_type m.type (c ∷ cs)) low.distinct,
    )

-- It has the counters of every type.
pub find_entry-sort :
    (t rounds : ℕ) (cs : Cells)
    → Distinct cs
    → length cs ≤ rounds
    → find_entry t (sort rounds cs) ≡ find_entry t cs
unfolding sort
find_entry-sort t zero [] k f = refl
find_entry-sort t zero (c ∷ cs) k f = absurd (omega arith)
find_entry-sort t (suc rounds) [] k f = refl
find_entry-sort t (suc rounds) (c ∷ cs) k f =
    let m = min_cell c (c ∷ cs) in
    let low = min_cell-IsLowest c cs k in
    let rest =
      find_entry-sort t rounds (erase_type m.type (c ∷ cs)) low.distinct
        (omega (arith, low.size)) in
    elim (Bool-cases (m.type == t)) [
      | inl hit ↦ rw hit (sym low.found ∙ ap (λ s. find_entry s (c ∷ cs)) ((==_iff m.type t).0 hit))
      | inr miss ↦ rw miss (rest ∙ (find_entry-erase t m.type (c ∷ cs) k ∙ rw miss))
    ]
