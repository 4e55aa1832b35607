-- ===== src/TypeInfo/Remove.antt =====
-- `removeByType` of assignment2/src/assignment2.c.
use grnvs.Prelude.{
  ℕ, zero, suc, ◌<◌, ◌≡◌, ◌≢◌, refl, true, false, none, some, [], ◌∷◌, arith, ◌==◌, ==_ne,
  if◌then◌else◌, length, Bool-cases, inl, inr,
}
use grnvs.Prelude.Run.{Ends}
use grnvs.TypeInfo.{Ptr, null, Heap, write, unlink_loop, remove_by_type}
use grnvs.TypeInfo.Seg.{
  Cell, Cells, node, has, Linked, SameOutside, Linked-write, load-ok, set_next-ok, free-ok,
}

-- The list without its first node of the type.
unfoldable pub erase_type : ℕ → Cells → Cells
erase_type type [] = []
erase_type type (c ∷ cs) = if c.type == type then cs else c ∷ erase_type type cs

-- Every node of `cs` that is not in `ds` is freed.
abbrev pub Freed : Cells → Cells → Heap → Type 0
Freed cs ds g = (a : Ptr) → has a cs ≡ true → has a ds ≡ false → g a ≡ none

abbrev pub Erased : Heap → ℕ → Cells → Ptr → Heap → Type 0
Erased h type cs p g =
    Linked g p (erase_type type cs) × SameOutside cs h g × Freed cs (erase_type type cs) g

pub not-has-erase :
    (a : Ptr) (type : ℕ) (cs : Cells) → has a cs ≡ false → has a (erase_type type cs) ≡ false
unfolding erase_type
not-has-erase a type [] out = refl
not-has-erase a type (c ∷ cs) out = ground (arith, not-has-erase a type cs)

unlink_loop-Erased :
    (fuel type : ℕ) (h : Heap) (p : Ptr) (c : Cell) (cs : Cells)
    → Linked h p (c ∷ cs)
    → (c.type == type) ≡ false
    → length cs < fuel
    → Ends (λ _ g. Erased h type (c ∷ cs) p g) (unlink_loop fuel type p h)
unfolding unlink_loop erase_type write
unlink_loop-Erased zero type h p c cs l miss f = absurd (omega arith)
unlink_loop-Erased (suc fuel) type h p c [] (q, e, ne, here, out, l) miss f =
    rw (e, load-ok h c.at (node c q) ne here, l, miss)
      (tt, h, refl, ((null, refl, ne, rw (← l) here, refl, refl), λ a o. refl, λ a i o. cc))
unlink_loop-Erased (suc fuel) type h p c (d ∷ ds)
      (q, e, ne, here, out, (r, e', ne', here', out', l)) miss f =
    let d_here : h q ≡ some (node d r) = rw e' here' in
    let q_ne : q ≢ null = rw e' ne' in
    rw (e, load-ok h c.at (node c q) ne here, ==_ne q null q_ne, load-ok h q (node d r) q_ne d_here)
      (elim (Bool-cases (d.type == type)) [
        | inl hit ↦
            let g = write h c.at (some (node c r)) in
            let still : g q ≡ some (node d r) = ground arith in
            let rest : Linked (write g q none) r ds =
              Linked-write g r q none ds (Linked-write h r c.at _ ds l (ground arith))
                (ground arith) in
            rw
              (
                hit,
                set_next-ok h c.at (node c q) ne here r,
                free-ok g q (node d r) q_ne still,
                miss,
              )
              (
                tt,
                write g q none,
                refl,
                (
                  (r, refl, ne, ground arith, ground arith, rest),
                  λ a o. ground arith,
                  λ a i o. ground arith,
                ),
              )
        | inr other ↦
            let (a, g, runs, (l', same, freed)) =
              unlink_loop-Erased fuel type h q d ds (r, e', ne', here', out', l) other
                (omega arith) in
            rw (other, runs, miss)
              (
                a,
                g,
                refl,
                (
                  (
                    q,
                    refl,
                    ne,
                    ground (arith, same c.at),
                    ground (arith, not-has-erase c.at type ds),
                    rw other at l',
                  ),
                  λ b o. same b (ground arith),
                  λ b i o. freed b (ground arith) (ground arith),
                ),
              )
      ])

-- On a list shorter than the fuel, `removeByType` unlinks and frees the first node of the type, if
-- there is one; the other nodes
-- stay as they are, and it writes to no other address.
pub remove_by_type-Erased :
    (fuel type : ℕ) (h : Heap) (p : Ptr) (cs : Cells)
    → Linked h p cs
    → length cs < fuel
    → Ends (Erased h type cs) (remove_by_type fuel type p h)
unfolding remove_by_type erase_type
remove_by_type-Erased fuel type h p [] l f = rw l (null, h, refl, (refl, λ a o. refl, λ a i o. cc))
remove_by_type-Erased fuel type h p (c ∷ cs) (q, e, ne, here, out, l) f =
    rw (e, ==_ne c.at null ne, load-ok h c.at (node c q) ne here)
      (elim (Bool-cases (c.type == type)) [
        | inl hit ↦
            rw (hit, free-ok h c.at (node c q) ne here)
              (
                q,
                write h c.at none,
                refl,
                (
                  Linked-write h q c.at none cs l out,
                  unfold write in λ a o. ground arith,
                  unfold write in λ a i o. ground arith,
                ),
              )
        | inr miss ↦
            let (a, g, runs, kept) =
              unlink_loop-Erased fuel type h c.at c cs (q, refl, ne, here, out, l) miss
                (omega arith) in
            rw (miss, runs) (c.at, g, refl, rw miss at kept)
      ])
