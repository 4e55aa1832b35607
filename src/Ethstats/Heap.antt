-- ===== src/Ethstats/Heap.antt =====
-- One frame of assignment2.c on the heap: the list of nodes follows the table.
use grnvs.Prelude.{
  ℕ, ◌+◌, ◌<◌, ◌≡◌, ◌≢◌, ◌⊎◌, refl, true, false, Option, none, some, [], ◌∷◌, arith, ◌==◌, ==_ne,
  length, Bool-cases, Option-cases, inl, inr, ◌∙◌, sym,
}
use grnvs.Prelude.Run.{ok, fault, Ends}
use grnvs.Prelude.Words.{u32}
use grnvs.TypeInfo.{Ptr, null, TypeInfo, Heap, write, new_info}
use grnvs.TypeInfo.Seg.{
  Cells, node, has, Linked, SameOutside, Linked-write, has-append, not-has_of_none, load-ok,
  load-null, store-ok,
}
use grnvs.TypeInfo.Find.{find_type, get_info_by_type-find_type}
use grnvs.TypeInfo.Insert.{insert_info-append}
use grnvs.Ethstats.{Doubles, add_frame, first_frame, count_type}
use grnvs.Ethstats.Table.{find_entry, bump, new_cell, tally}

has-bump : (a : Ptr) (t ret : ℕ) (cs : Cells) → has a (bump t ret cs) ≡ has a cs
has-bump a t ret [] = refl
has-bump a t ret (c ∷ cs) = ground (arith, has-bump a t ret cs)

-- The searches of the heap and of the table agree.
find_type-null :
    (h : Heap) (p : Ptr) (t : ℕ) (cs : Cells)
    → Linked h p cs
    → find_entry t cs ≡ none
    → find_type t cs ≡ null
unfolding find_type
find_type-null h p t [] l e = refl
find_type-null h p t (c ∷ cs) (q, e', ne, here, out, l) e =
    ground (arith, find_type-null h q t cs l)

find_type-ne_null :
    (h : Heap) (p : Ptr) (t : ℕ) (cs : Cells)
    → Linked h p cs
    → find_entry t cs ≢ none
    → find_type t cs ≢ null
unfolding find_type
find_type-ne_null h p t [] l e = absurd (e refl)
find_type-ne_null h p t (c ∷ cs) (q, e', ne, here, out, l) e =
    ground (arith, find_type-ne_null h q t cs l)

pub not-has-tally :
    (a fresh : Ptr) (t ret : ℕ) (cs : Cells)
    → has a cs ≡ false
    → a ≢ fresh
    → has a (tally fresh t ret cs) ≡ false
unfolding tally
not-has-tally a fresh t ret cs out ne =
    ground (arith, has-append a cs (new_cell fresh t ret ∷ []), has-bump a t ret cs)

pub has-tally :
    (a fresh : Ptr) (t ret : ℕ) (cs : Cells)
    → has a (tally fresh t ret cs) ≡ true
    → (a ≡ fresh) ⊎ (has a cs ≡ true)
unfolding tally
has-tally a fresh t ret cs i =
    ground (arith, has-append a cs (new_cell fresh t ret ∷ []), has-bump a t ret cs)

pub not-has_of_tally :
    (a fresh : Ptr) (t ret : ℕ) (cs : Cells)
    → has a (tally fresh t ret cs) ≡ false
    → has a cs ≡ false
unfolding tally
not-has_of_tally a fresh t ret cs out =
    ground (arith, has-append a cs (new_cell fresh t ret ∷ []), has-bump a t ret cs)

module _ (D : Doubles) where
  add_frame-ok :
      (h : Heap) (p : Ptr) (n : TypeInfo) (ret : ℕ)
      → p ≢ null
      → h p ≡ some n
      → let n' = record n { frame_counter = u32 (n.frame_counter + 1) } in
        add_frame D p ret h
        ≡ ok tt (
            write
              (write h p (some n'))
              p
              (some (record n' { byte_counter = u32 (n'.byte_counter + ret) })))
  unfolding add_frame write
  add_frame-ok h p n ret ne here =
      let n' : TypeInfo = record n { frame_counter = u32 (n.frame_counter + 1) } in
      let g = write h p (some n') in
      let there : g p ≡ some n' = ground arith in
      rw (load-ok h p n ne here, store-ok h p n ne here n', load-ok g p n' ne there)
        (store-ok g p n' ne there _)

  first_frame-ok :
      (h : Heap) (p : Ptr) (n : TypeInfo) (ret : ℕ)
      → p ≢ null
      → h p ≡ some n
      → let n' = record n { frame_counter = 1 } in
        first_frame D p ret h
        ≡ ok tt (write (write h p (some n')) p (some (record n' { byte_counter = u32 ret })))
  unfolding first_frame write
  first_frame-ok h p n ret ne here =
      let n' : TypeInfo = record n { frame_counter = 1 } in
      let g = write h p (some n') in
      let there : g p ≡ some n' = ground arith in
      rw (load-ok h p n ne here, store-ok h p n ne here n', load-ok g p n' ne there)
        (store-ok g p n' ne there _)

  add_frame-bump :
      (h : Heap) (p : Ptr) (t ret : ℕ) (cs : Cells)
      → Linked h p cs
      → find_entry t cs ≢ none
      → Ends
          (λ _ g. Linked g p (bump t ret cs) × SameOutside cs h g)
          (add_frame D (find_type t cs) ret h)
  unfolding find_type write
  add_frame-bump h p t ret [] l present = absurd (present refl)
  add_frame-bump h p t ret (c ∷ cs) (q, e, ne, here, out, l) present =
      elim (Bool-cases (c.type == t)) [
        | inl hit ↦
            let n' : TypeInfo = record (node c q) { frame_counter = u32 (c.frames + 1) } in
            let g = write h c.at (some n') in
            let k : TypeInfo = record n' { byte_counter = u32 (c.bytes + ret) } in
            rw (hit, add_frame-ok h c.at (node c q) ret ne here)
              (
                tt,
                write g c.at (some k),
                refl,
                (
                  (
                    q,
                    e,
                    ne,
                    ground arith,
                    out,
                    Linked-write g q c.at (some k) cs (Linked-write h q c.at (some n') cs l out)
                        out,
                  ),
                  λ a o. ground arith,
                ),
              )
        | inr miss ↦
            let (u, g, runs, (l', same)) = add_frame-bump h q t ret cs l (ground arith) in
            rw (miss, runs)
              (
                u,
                g,
                refl,
                (
                  (q, e, ne, ground (arith, same c.at), has-bump c.at t ret cs ∙ out, l'),
                  λ a o. same a (ground arith),
                ),
              )
      ]

  -- `newInfo`, with the pointer that `malloc` returned.
  new_info-ok :
      (h : Heap) (fresh : Ptr) (t : ℕ)
      → fresh ≢ null
      → let n : TypeInfo = record {
        eth_type = t;
        frame_counter = 0;
        byte_counter = 0;
        next = null;
      } in
        new_info fresh t h ≡ ok fresh (write h fresh (some n))
  unfolding new_info
  new_info-ok h fresh t ne = rw (==_ne fresh null ne)

  Linked-writes :
      (h : Heap) (p a : Ptr) (u v w : Option TypeInfo) (cs : Cells)
      → Linked h p cs
      → has a cs ≡ false
      → Linked (write (write (write h a u) a v) a w) p cs
  Linked-writes h p a u v w cs l out =
      Linked-write _ p a w cs (Linked-write _ p a v cs (Linked-write h p a u cs l out) out) out

  -- One frame of a type on the heap: afterwards the list stands for the table with one more frame,
  -- and only nodes of the list and the new node have changed. `malloc` returned an unused address.
  pub count_type-tally :
      (fuel : ℕ) (h : Heap) (p fresh : Ptr) (t ret : ℕ) (cs : Cells)
      → Linked h p cs
      → fresh ≢ null
      → h fresh ≡ none
      → length cs < fuel
      → Ends
          (λ p' g. Linked g p' (tally fresh t ret cs) × SameOutside (tally fresh t ret cs) h g)
          (count_type D fuel fresh t ret p h)
  unfolding count_type tally
  count_type-tally fuel h p fresh t ret cs l ne unused f =
      let out = not-has_of_none h p fresh cs l unused in
      elim (Option-cases (find_entry t cs)) [
        | inl absent ↦
            let n : TypeInfo = record {
              eth_type = t;
              frame_counter = 0;
              byte_counter = 0;
              next = null;
            } in
            let n' : TypeInfo = record n { frame_counter = 1 } in
            let k : TypeInfo = record n' { byte_counter = u32 ret } in
            let g0 = write h fresh (some n) in
            let g = write (write g0 fresh (some n')) fresh (some k) in
            let there : g0 fresh ≡ some n = unfold write in ground arith in
            let new_there : g fresh ≡ some (node (new_cell fresh t ret) null) =
              unfold write in ground arith in
            let (p', g', runs, (l', same)) =
              insert_info-append fuel g p cs (new_cell fresh t ret)
                (Linked-writes h p fresh (some n) (some n') (some k) cs l out)
                (null, refl, ne, new_there, refl, refl) out f in
            rw
              (
                absent,
                tally,
                get_info_by_type-find_type fuel t h p cs l f,
                find_type-null h p t cs l absent,
                new_info-ok h fresh t ne,
                first_frame-ok g0 fresh n ret ne there,
                runs,
              )
              (
                p',
                g',
                refl,
                (
                  l',
                  λ b o.
                      let apart = has-append b cs (new_cell fresh t ret ∷ []) in
                      same b (ground arith) ∙ (unfold write in ground arith),
                ),
              )
        | inr (v, present) ↦
            let some_entry : find_entry t cs ≢ none = λ e. cc in
            let (u, g, runs, (l', same)) = add_frame-bump h p t ret cs l some_entry in
            rw
              (
                present,
                tally,
                get_info_by_type-find_type fuel t h p cs l f,
                ==_ne (find_type t cs) null (find_type-ne_null h p t cs l some_entry),
                runs,
              )
              (p, g, refl, (l', λ b o. same b (sym (has-bump b t ret cs) ∙ o)))
      ]

  -- When `malloc` returns NULL for a frame of a type that has no node yet, in a list shorter than the
  -- fuel, the code writes through
  -- the NULL pointer.
  pub count_type-fault :
      (fuel : ℕ) (h : Heap) (p : Ptr) (t ret : ℕ) (cs : Cells)
      → Linked h p cs
      → find_entry t cs ≡ none
      → length cs < fuel
      → count_type D fuel null t ret p h ≡ fault
  unfolding count_type new_info first_frame
  count_type-fault fuel h p t ret cs l absent f =
      rw (get_info_by_type-find_type fuel t h p cs l f, find_type-null h p t cs l absent, load-null)
