-- ===== src/TypeInfo/Find.antt =====
-- `getInfoByType` and `min` of assignment2/src/assignment2.c: the searches, which write nothing.
use grnvs.Prelude.{
  ℕ, zero, suc, ◌<◌, ◌≡◌, ◌≢◌, refl, some, [], ◌∷◌, arith, ◌==◌, ==_ne, ltb, if◌then◌else◌,
  Bool-cases, inl, inr, length,
}
use grnvs.Prelude.Run.{ok}
use grnvs.TypeInfo.{Ptr, null, Heap, get_info_by_type, min_loop, min}
use grnvs.TypeInfo.Seg.{Cell, Cells, node, Linked, load-ok}

-- The address of the first node of a type, NULL if there is none.
unfoldable pub find_type : ℕ → Cells → Ptr
find_type type [] = null
find_type type (c ∷ cs) = if c.type == type then c.at else find_type type cs

-- On a list shorter than the fuel, `getInfoByType` returns the first node of the type, or NULL if
-- there is none, and writes nothing.
pub get_info_by_type-find_type :
    (fuel type : ℕ) (h : Heap) (p : Ptr) (cs : Cells)
    → Linked h p cs
    → length cs < fuel
    → get_info_by_type fuel type p h ≡ ok (find_type type cs) h
unfolding get_info_by_type find_type
get_info_by_type-find_type zero type h p cs l f = absurd (omega arith)
get_info_by_type-find_type (suc fuel) type h p [] l f = rw l
get_info_by_type-find_type (suc fuel) type h p (c ∷ cs) (q, e, ne, here, out, l) f =
    rw (e, ==_ne c.at null ne, load-ok h c.at (node c q) ne here)
      (elim (Bool-cases (c.type == type)) [
        | inl hit ↦ rw hit
        | inr miss ↦ rw miss (get_info_by_type-find_type fuel type h q cs l (omega arith))
      ])

-- The node of the lowest type, the first of those; `c` stands before the others.
unfoldable pub min_cell : Cell → Cells → Cell
min_cell c [] = c
min_cell c (d ∷ ds) = min_cell (if ltb d.type c.type then d else c) ds

min_loop-min_cell :
    (fuel : ℕ) (h : Heap) (p : Ptr) (cs : Cells) (c : Cell) (r : Ptr)
    → Linked h p cs
    → c.at ≢ null
    → h c.at ≡ some (node c r)
    → length cs < fuel
    → min_loop fuel p c.at h ≡ ok (min_cell c cs).at h
unfolding min_loop min_cell
min_loop-min_cell zero h p cs c r l c_ne c_here f = absurd (omega arith)
min_loop-min_cell (suc fuel) h p [] c r l c_ne c_here f = rw l
min_loop-min_cell (suc fuel) h p (d ∷ ds) c r (q, e, ne, here, out, l) c_ne c_here f =
    rw
      (
        e,
        ==_ne d.at null ne,
        load-ok h d.at (node d q) ne here,
        load-ok h c.at (node c r) c_ne c_here,
      )
      (elim (Bool-cases (ltb d.type c.type)) [
        | inl less ↦ rw (less, min_cell) (min_loop-min_cell fuel h q ds d q l ne here (omega arith))
        | inr not_less ↦
            rw (not_less, min_cell) (min_loop-min_cell fuel h q ds c r l c_ne c_here (omega arith))
      ])

-- `min` of a list that is not empty and shorter than the fuel returns the node that `min_cell`
-- names, and writes nothing.
pub min-min_cell :
    (fuel : ℕ) (h : Heap) (p : Ptr) (c : Cell) (cs : Cells)
    → Linked h p (c ∷ cs)
    → length (c ∷ cs) < fuel
    → min fuel p h ≡ ok (min_cell c (c ∷ cs)).at h
unfolding min
min-min_cell fuel h p c cs (q, e, ne, here, out, l) f =
    rw e (min_loop-min_cell fuel h c.at (c ∷ cs) c q (q, refl, ne, here, out, l) ne here f)
