-- ===== src/TypeInfo/Insert.antt =====
-- `insertInfo` of assignment2/src/assignment2.c.
use grnvs.Prelude.{ℕ, zero, suc, ◌<◌, ◌≡◌, refl, false, some, [], ◌∷◌, ◌++◌, arith, ==_ne, length}
use grnvs.Prelude.Run.{Ends}
use grnvs.TypeInfo.{Ptr, null, Heap, write, append_loop, insert_info}
use grnvs.TypeInfo.Seg.{
  Cell, Cells, node, has, Linked, SameOutside, has-append, load-ok, set_next-ok,
}

append_loop-Linked :
    (fuel : ℕ) (h : Heap) (p : Ptr) (c : Cell) (cs : Cells) (new : Cell)
    → Linked h p (c ∷ cs)
    → Linked h new.at (new ∷ [])
    → has new.at (c ∷ cs) ≡ false
    → length cs < fuel
    → Ends
        (λ _ g. Linked g p (c ∷ (cs ++ new ∷ [])) × SameOutside (c ∷ cs) h g)
        (append_loop fuel p new.at h)
unfolding append_loop write
append_loop-Linked zero h p c cs new l ln out f = absurd (omega arith)
append_loop-Linked (suc fuel) h p c [] new (q, e, ne, here, out', l) (z, e', ne', here', _, l') out
      f =
    rw (e, load-ok h c.at (node c q) ne here, l, set_next-ok h c.at (node c q) ne here new.at)
      (
        tt,
        write h c.at (some (node c new.at)),
        refl,
        (
          (new.at, refl, ne, ground arith, ground arith, (z, refl, ne', ground arith, refl, l')),
          λ a o. ground arith,
        ),
      )
append_loop-Linked (suc fuel) h p c (d ∷ ds) new (q, e, ne, here, out', l) ln out f =
    let (a, g, runs, (l', same)) =
      append_loop-Linked fuel h q d ds new l ln (ground arith) (omega arith) in
    rw (e, load-ok h c.at (node c q) ne here, ==_ne q null (rw l.1 l.2))
      (
        a,
        g,
        runs,
        (
          (
            q,
            refl,
            ne,
            ground (arith, same c.at),
            ground (arith, has-append c.at ds (new ∷ [])),
            l',
          ),
          λ b o. same b (ground arith),
        ),
      )

-- On a list shorter than the fuel, `insertInfo` puts a node with a NULL successor, which is not in the list, behind the last node,
-- and writes only to nodes of the list.
pub insert_info-append :
    (fuel : ℕ) (h : Heap) (p : Ptr) (cs : Cells) (new : Cell)
    → Linked h p cs
    → Linked h new.at (new ∷ [])
    → has new.at cs ≡ false
    → length cs < fuel
    → Ends (λ p' g. Linked g p' (cs ++ new ∷ []) × SameOutside cs h g) (insert_info fuel new.at p h)
unfolding insert_info
insert_info-append fuel h p [] new l ln out f = rw l (new.at, h, refl, (ln, λ a o. refl))
insert_info-append fuel h p (c ∷ cs) new l ln out f =
    let (a, g, runs, kept) = append_loop-Linked fuel h p c cs new l ln out (omega arith) in
    rw (==_ne p null (rw l.1 l.2), runs) (p, g, refl, kept)
