-- ===== src/Ethstats/Table.antt =====
-- The table of assignment2.c as a list of cells, with its operations, and what it says of the
-- frames seen. Addresses play no part here.
pub mod Sort
use mathlib.Core.Option
use grnvs.Prelude.{
  ℕ, zero, suc, ◌+◌, ◌%◌, ◌^◌, ◌<◌, ◌≤◌, ◌≡◌, ◌≢◌, refl, Bool, true, false, Option, none, some,
  List, [], ◌∷◌, ◌++◌, arith, ◌==◌, if◌then◌else◌, length, length-append, Bool-cases, Option-cases,
  inl, inr,
}
use grnvs.Prelude.Words.{u32}
use grnvs.EthFrame.{Bytes}
use grnvs.TypeInfo.{Ptr, null}
use grnvs.TypeInfo.Seg.{Cell, Cells, has, Linked}
use grnvs.TypeInfo.Find.{find_type}

-- What a round adds to the statistics: EtherType, length and destination address of its frame.
pub record Event : Type 0 where
  pub type : ℕ
  pub len : ℕ
  pub dest : Bytes

abbrev pub Events : Type 0
Events = List Event

-- The frames of a type, and their bytes.
abbrev pub frames_of : ℕ → Events → ℕ
frames_of t [] = 0
frames_of t (e ∷ es) = (if e.type == t then 1 else 0) + frames_of t es

abbrev pub bytes_of : ℕ → Events → ℕ
bytes_of t [] = 0
bytes_of t (e ∷ es) = (if e.type == t then e.len else 0) + bytes_of t es

-- The counters of the first cell of a type.
abbrev pub find_entry : ℕ → Cells → Option (ℕ × ℕ)
find_entry t [] = none
find_entry t (c ∷ cs) = if c.type == t then some (c.frames, c.bytes) else find_entry t cs

-- No two cells have one type.
abbrev pub Distinct : Cells → Type 0
Distinct [] = Unit {0}
Distinct (c ∷ cs) = (find_entry c.type cs ≡ none) × Distinct cs

-- The counters of the first cell of the type, one frame of `ret` bytes later.
abbrev pub bump : ℕ → ℕ → Cells → Cells
bump t ret [] = []
bump t ret (c ∷ cs) =
    if c.type == t
    then record c { frames = u32 (c.frames + 1); bytes = u32 (c.bytes + ret) } ∷ cs
    else c ∷ bump t ret cs

abbrev pub new_cell : Ptr → ℕ → ℕ → Cell
new_cell fresh t ret = record { at = fresh; type = t; frames = 1; bytes = u32 ret }

-- The table after one more frame.
unfoldable pub tally : Ptr → ℕ → ℕ → Cells → Cells
tally fresh t ret cs = elim (find_entry t cs) [
  | none ↦ cs ++ new_cell fresh t ret ∷ []
  | some _ ↦ bump t ret cs
]

-- The table tells, modulo 2^32, how many frames and bytes of each type were seen, and has no cell
-- for a type that was not seen.
pub record IsTable (es : Events) (cs : Cells) : Type 0 where
  pub distinct : Distinct cs
  pub counts :
      (t : ℕ)
      → find_entry t cs
        ≡ (if frames_of t es == 0 then none else some (u32 (frames_of t es), u32 (bytes_of t es)))

find_entry-append :
    (t : ℕ) (cs : Cells) (d : Cell)
    → find_entry d.type cs ≡ none
    → find_entry t (cs ++ d ∷ [])
      ≡ (if d.type == t then some (d.frames, d.bytes) else find_entry t cs)
find_entry-append t [] d h = refl
find_entry-append t (c ∷ cs) d h = ground (arith, find_entry-append t cs d)

find_entry-bump :
    (t s ret : ℕ) (cs : Cells)
    → find_entry t (bump s ret cs) ≡ (
        if s == t
        then Option.map (λ (f, b). (u32 (f + 1), u32 (b + ret))) (find_entry t cs)
        else find_entry t cs)
find_entry-bump t s ret [] = ground arith
find_entry-bump t s ret (c ∷ cs) = ground (arith, find_entry-bump t s ret cs)

Distinct-append :
    (cs : Cells) (d : Cell) → find_entry d.type cs ≡ none → Distinct cs → Distinct (cs ++ d ∷ [])
Distinct-append [] d h k = (refl, tt)
Distinct-append (c ∷ cs) d h (here, k) =
    (ground (arith, find_entry-append c.type cs d), Distinct-append cs d (ground arith) k)

Distinct-bump : (s ret : ℕ) (cs : Cells) → Distinct cs → Distinct (bump s ret cs)
Distinct-bump s ret [] k = tt
Distinct-bump s ret (c ∷ cs) (here, k) = elim (Bool-cases (c.type == s)) [
  | inl hit ↦ rw hit (here, k)
  | inr miss ↦ rw miss (ground (arith, find_entry-bump c.type s ret cs), Distinct-bump s ret cs k)
]

frames_of-append :
    (t : ℕ) (es : Events) (e : Event)
    → frames_of t (es ++ e ∷ []) ≡ frames_of t es + (if e.type == t then 1 else 0)
frames_of-append t [] e = ground arith
frames_of-append t (d ∷ es) e = ground (arith, frames_of-append t es e)

bytes_of-append :
    (t : ℕ) (es : Events) (e : Event)
    → bytes_of t (es ++ e ∷ []) ≡ bytes_of t es + (if e.type == t then e.len else 0)
bytes_of-append t [] e = ground arith
bytes_of-append t (d ∷ es) e = ground (arith, bytes_of-append t es e)

find_entry-tally :
    (t s ret : ℕ) (fresh : Ptr) (cs : Cells)
    → find_entry t (tally fresh s ret cs) ≡ (
        if s == t
        then elim (find_entry t cs) [
          | none ↦ some (1, u32 ret)
          | some (f, b) ↦ some (u32 (f + 1), u32 (b + ret))
        ]
        else find_entry t cs)
unfolding tally
find_entry-tally t s ret fresh cs =
    ground (arith, find_entry-append t cs (new_cell fresh s ret), find_entry-bump t s ret cs)

tally-Distinct :
    (s ret : ℕ) (fresh : Ptr) (cs : Cells) → Distinct cs → Distinct (tally fresh s ret cs)
unfolding tally
tally-Distinct s ret fresh cs k = elim (Option-cases (find_entry s cs)) [
  | inl absent ↦ rw (absent, tally) (Distinct-append cs (new_cell fresh s ret) absent k)
  | inr (v, present) ↦ rw (present, tally) (Distinct-bump s ret cs k)
]

bytes_of-none : (t : ℕ) (es : Events) → frames_of t es ≡ 0 → bytes_of t es ≡ 0
bytes_of-none t [] h = refl
bytes_of-none t (e ∷ es) h = ground (arith, bytes_of-none t es)

-- One more frame: the table goes on telling what was seen.
pub tally-IsTable :
    (e : Event) (fresh : Ptr) (es : Events) (cs : Cells)
    → IsTable es cs
    → IsTable (es ++ e ∷ []) (tally fresh e.type e.len cs)
tally-IsTable e fresh es cs k = record {
  distinct = tally-Distinct e.type e.len fresh cs k.distinct;
  counts = λ t. ground (
    arith,
    find_entry-tally t e.type e.len fresh cs,
    k.counts t,
    bytes_of-none t es,
    frames_of-append t es e,
    bytes_of-append t es e,
  );
}

pub start-IsTable : IsTable [] []
start-IsTable = record { distinct = tt; counts = λ t. refl }

pub length-tally :
    (s ret : ℕ) (fresh : Ptr) (cs : Cells) → length (tally fresh s ret cs) ≤ length cs + 1
unfolding tally
length-tally s ret fresh cs = elim (Option-cases (find_entry s cs)) [
  | inl absent ↦ rw (absent, tally) (omega (arith, length-append cs (new_cell fresh s ret ∷ [])))
  | inr (v, present) ↦ rw (present, tally) (omega (arith, length-bump cs))
]
  where
    length-bump : (cs : Cells) → length (bump s ret cs) ≡ length cs
    length-bump [] = refl
    length-bump (c ∷ cs) = ground (arith, length-bump cs)
