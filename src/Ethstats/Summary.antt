-- ===== src/Ethstats/Summary.antt =====
-- The summary loop of assignment2.c against the sorted table.
use grnvs.Prelude.{
  ℕ, zero, suc, ◌<◌, ◌≡◌, ◌≢◌, refl, false, none, some, List, [], ◌∷◌, arith, ==_ne, ltb,
  if◌then◌else◌, length, map, Bool-cases, inl, inr,
}
use grnvs.Prelude.Run.{Ends}
use grnvs.Prelude.Words.{signed32}
use grnvs.TypeInfo.{Ptr, null, Heap}
use grnvs.TypeInfo.Seg.{Cell, Cells, node, has, Linked, load-ok}
use grnvs.TypeInfo.Find.{min_cell, min-min_cell}
use grnvs.TypeInfo.Remove.{erase_type, remove_by_type-Erased}
use grnvs.Ethstats.{Doubles, Line, summary}
use grnvs.Ethstats.Table.{Distinct}
use grnvs.Ethstats.Table.Sort.{sort, min_cell-IsLowest}

-- The line of a cell.
abbrev pub line_of : (D : Doubles) → Cell → Line D
line_of D c = Line.type_line c.type (signed32 c.frames) (signed32 c.bytes)

min_cell-load :
    (h : Heap) (p : Ptr) (cs : Cells) (c : Cell) (r : Ptr)
    → Linked h p cs
    → c.at ≢ null
    → h c.at ≡ some (node c r)
    → (q : Ptr) × ((min_cell c cs).at ≢ null)
      × (h (min_cell c cs).at ≡ some (node (min_cell c cs) q))
unfolding min_cell
min_cell-load h p [] c r l ne here = (r, ne, here)
min_cell-load h p (d ∷ ds) c r (q, e, d_ne, d_here, out, l) ne here =
    elim (Bool-cases (ltb d.type c.type)) [
      | inl less ↦ rw (less, min_cell) (min_cell-load h q ds d q l d_ne d_here)
      | inr not_less ↦ rw (not_less, min_cell) (min_cell-load h q ds c r l ne here)
    ]

has-erase : (a : Ptr) (t : ℕ) (cs : Cells) → has a cs ≡ false → has a (erase_type t cs) ≡ false
unfolding erase_type
has-erase a t [] out = refl
has-erase a t (c ∷ cs) out = ground (arith, has-erase a t cs)

-- The summary prints one line for each cell of the table, in ascending order of type, and frees
-- the whole list and nothing else.
pub summary-sort :
    (D : Doubles) (fuel : ℕ) (mymac : List ℕ) (rounds : ℕ) (h : Heap) (p : Ptr) (cs : Cells)
    → Linked h p cs
    → Distinct cs
    → length cs < fuel
    → length cs < rounds
    → Ends
        (λ lines g.
          (lines ≡ map (line_of D) (sort rounds cs))
          × ((a : Ptr) → g a ≡ (if has a cs then none else h a)))
        (summary D fuel mymac rounds p h)
unfolding summary sort
summary-sort D fuel mymac zero h p cs l k f r = absurd (omega arith)
summary-sort D fuel mymac (suc rounds) h p [] l k f r = rw l ([], h, refl, (refl, λ a. refl))
summary-sort D fuel mymac (suc rounds) h p (c ∷ cs) l k f r =
    let m = min_cell c (c ∷ cs) in
    let low = min_cell-IsLowest c cs k in
    let (p', g, runs, (l', same, freed)) = remove_by_type-Erased fuel m.type h p (c ∷ cs) l f in
    let (lines, g', runs', (e, gone)) =
      summary-sort D fuel mymac rounds g p' (erase_type m.type (c ∷ cs)) l' low.distinct
        (omega (arith, low.size)) (omega (arith, low.size)) in
    let (q, ne, here) = min_cell-load h p (c ∷ cs) c l.0 l l.2 l.3 in
    rw
      (
        ==_ne p null (rw l.1 l.2),
        min-min_cell fuel h p c cs l f,
        load-ok h m.at (node m q) ne here,
        runs,
        runs',
      )
      (
        line_of D m ∷ lines,
        g',
        refl,
        (rw e, λ a. ground (arith, gone a, same a, freed a, has-erase a m.type (c ∷ cs))),
      )
