-- ===== src/TypeInfo/Free.antt =====
-- `freeInfo` of assignment2/src/assignment2.c.
use grnvs.Prelude.{ℕ, zero, suc, ◌<◌, ◌≡◌, refl, none, [], ◌∷◌, arith, ==_ne, if◌then◌else◌, length}
use grnvs.Prelude.Run.{Ends}
use grnvs.TypeInfo.{Ptr, null, Heap, write, free_info}
use grnvs.TypeInfo.Seg.{Cells, node, has, Linked, Linked-write, load-ok, free-ok}

-- On a list shorter than the fuel, `freeInfo` frees every node of the list and no other: afterwards the heap is as before, but for
-- the nodes of the list, which are gone.
pub free_info-all :
    (fuel : ℕ) (h : Heap) (p : Ptr) (cs : Cells)
    → Linked h p cs
    → length cs < fuel
    → Ends (λ _ g. (a : Ptr) → g a ≡ (if has a cs then none else h a)) (free_info fuel p h)
unfolding free_info write
free_info-all zero h p cs l f = absurd (omega arith)
free_info-all (suc fuel) h p [] l f = rw l (tt, h, refl, λ a. refl)
free_info-all (suc fuel) h p (c ∷ cs) (q, e, ne, here, out, l) f =
    let (u, g, runs, gone) =
      free_info-all fuel (write h c.at none) q cs (Linked-write h q c.at none cs l out)
        (omega arith) in
    rw (e, ==_ne c.at null ne, load-ok h c.at (node c q) ne here, free-ok h c.at (node c q) ne here)
      (u, g, runs, λ a. ground (arith, gone a))
