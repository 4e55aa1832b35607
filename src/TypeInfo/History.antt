-- ===== src/TypeInfo/History.antt =====
-- Any sequence of calls on a list of assignment2/src/assignment2.c.
use grnvs.Prelude.{
  ℕ, ◌+◌, ◌<◌, ◌≤◌, ◌≡◌, ◌≢◌, refl, true, false, none, some, List, [], ◌∷◌, ◌++◌, arith, ==_ne,
  length, length-append, Bool-cases, inl, inr, ◌∙◌, sym,
}
use grnvs.Prelude.Run.{Ends, pure, ◌>>=◌, ◌>>◌}
use grnvs.TypeInfo.{Ptr, null, Heap, Cmd, write, new_info, insert_info, remove_by_type, free_info}
use grnvs.TypeInfo.Seg.{Cell, Cells, node, has, Linked, has-append, Linked-write}
use grnvs.TypeInfo.Insert.{insert_info-append}
use grnvs.TypeInfo.Remove.{erase_type, not-has-erase, remove_by_type-Erased}
use grnvs.TypeInfo.Free.{free_info-all}

-- A call: a new node, at the address that `malloc` gives, a removal, or the release of the list.
pub data Call : Type 0 where
  insert : (fresh : Ptr) → (type : ℕ) → Call
  remove : (type : ℕ) → Call
  release : Call

-- A call on the list that starts at `head`, which gives its new start.
unfoldable pub call : ℕ → Call → (head : Ptr) → Cmd Ptr
call fuel (insert fresh type) head = do new ← new_info fresh type; insert_info fuel new head
call fuel (remove type) head = remove_by_type fuel type head
call fuel release head = do free_info fuel head; pure null

unfoldable pub run : ℕ → List Call → (head : Ptr) → Cmd Ptr
unfolding call
run fuel [] head = pure head
run fuel (c ∷ cs) head = do head ← call fuel c head; run fuel cs head

-- The same calls on the nodes.
abbrev pub after : Call → Cells → Cells
after (insert fresh type) ns = ns ++ record { at = fresh; type = type; frames = 0; bytes = 0 } ∷ []
after (remove type) ns = erase_type type ns
after release ns = []

abbrev pub replay : List Call → Cells → Cells
replay [] ns = ns
replay (c ∷ cs) ns = replay cs (after c ns)

-- `malloc` gives an address that is not in use: not in the heap `h` of the rest of the program, and not
-- in the list.
abbrev pub Unused : Heap → Call → Cells → Type 0
Unused h (insert fresh type) ns = (fresh ≢ null) × (h fresh ≡ none) × (has fresh ns ≡ false)
Unused h (remove type) ns = Unit {0}
Unused h release ns = Unit {0}

abbrev pub AllUnused : Heap → List Call → Cells → Type 0
AllUnused h [] ns = Unit {0}
AllUnused h (c ∷ cs) ns = Unused h c ns × AllUnused h cs (after c ns)

-- The heap `g` holds the list `ns`, at addresses that `h` does not use, and else is `h`.
abbrev pub Holds : Heap → Cells → Ptr → Heap → Type 0
Holds h ns p g =
    Linked g p ns
    × ((a : Ptr) → has a ns ≡ true → h a ≡ none)
    × ((a : Ptr) → has a ns ≡ false → g a ≡ h a)

insert-Holds :
    (fuel fresh type : ℕ) (h g : Heap) (ns : Cells) (p : Ptr)
    → Holds h ns p g
    → Unused h (insert fresh type) ns
    → length ns < fuel
    → Ends (Holds h (after (insert fresh type) ns)) (call fuel (insert fresh type) p g)
unfolding call new_info
insert-Holds fuel fresh type h g ns p (linked, free, same) (ne, unused, out) f =
    let new : Cell = record { at = fresh; type = type; frames = 0; bytes = 0 } in
    let g₁ = write g fresh (some (node new null)) in
    let (p', g₂, runs, (linked', same')) =
      insert_info-append fuel g₁ p ns new
        (Linked-write g p fresh (some (node new null)) ns linked out)
        (null, refl, ne, unfold write in ground arith, refl, refl) out f in
    rw (==_ne fresh null ne, runs)
      (
        p',
        g₂,
        refl,
        (
          linked',
          λ a i. ground (arith, has-append a ns (new ∷ []), free a),
          λ a o. unfold write in ground (arith, has-append a ns (new ∷ []), same' a, same a),
        ),
      )

has-erase : (a : Ptr) (type : ℕ) (ns : Cells) → has a (erase_type type ns) ≡ true → has a ns ≡ true
has-erase a type ns i = elim (Bool-cases (has a ns)) [
  | inl there ↦ there
  | inr out ↦ let gone = not-has-erase a type ns out in cc
]

remove-Holds :
    (fuel type : ℕ) (h g : Heap) (ns : Cells) (p : Ptr)
    → Holds h ns p g
    → length ns < fuel
    → Ends (Holds h (after (remove type) ns)) (call fuel (remove type) p g)
unfolding call
remove-Holds fuel type h g ns p (linked, free, same) f =
    let (p', g', runs, (linked', same', freed)) = remove_by_type-Erased fuel type g p ns linked f in
    (
      p',
      g',
      runs,
      (
        linked',
        λ a i. free a (has-erase a type ns i),
        λ a o. elim (Bool-cases (has a ns)) [
          | inl there ↦ freed a there o ∙ sym (free a there)
          | inr out ↦ same' a out ∙ same a out
        ],
      ),
    )

release-Holds :
    (fuel : ℕ) (h g : Heap) (ns : Cells) (p : Ptr)
    → Holds h ns p g
    → length ns < fuel
    → Ends (Holds h (after release ns)) (call fuel release p g)
unfolding call
release-Holds fuel h g ns p (linked, free, same) f =
    let (u, g', runs, gone) = free_info-all fuel g p ns linked f in
    rw runs (
      null,
      g',
      refl,
      (refl, λ a i. absurd (ground arith), λ a o. ground (arith, gone a, free a, same a)),
    )

call-Holds :
    (fuel : ℕ) (c : Call) (h g : Heap) (ns : Cells) (p : Ptr)
    → Holds h ns p g
    → Unused h c ns
    → length ns < fuel
    → Ends (Holds h (after c ns)) (call fuel c p g)
call-Holds fuel (insert fresh type) h g ns p holds unused f =
    insert-Holds fuel fresh type h g ns p holds unused f
call-Holds fuel (remove type) h g ns p holds unused f = remove-Holds fuel type h g ns p holds f
call-Holds fuel release h g ns p holds unused f = release-Holds fuel h g ns p holds f

length-erase_type : (type : ℕ) (ns : Cells) → length (erase_type type ns) ≤ length ns
unfolding erase_type
length-erase_type type [] = omega arith
length-erase_type type (n ∷ ns) = ground (arith, length-erase_type type ns)

length-after : (c : Call) (ns : Cells) → length (after c ns) ≤ length ns + 1
length-after (insert fresh type) ns =
    omega (arith, length-append ns (record { at = fresh; type = type; frames = 0; bytes = 0 } ∷ []))
length-after (remove type) ns = omega (arith, length-erase_type type ns)
length-after release ns = omega arith

-- From a heap that holds the list, any sequence of insertions, removals and releases, with addresses
-- from `malloc` that are not in use, and with more fuel than nodes and calls, ends without a fault. The heap then
-- holds the list that the same calls give on its nodes, and else it is the heap of the rest of the
-- program: what was taken out is freed, and nothing else has changed.
pub run-Holds :
    (fuel : ℕ) (cs : List Call) (h g : Heap) (ns : Cells) (p : Ptr)
    → Holds h ns p g
    → AllUnused h cs ns
    → length ns + length cs < fuel
    → Ends (Holds h (replay cs ns)) (run fuel cs p g)
unfolding run
run-Holds fuel [] h g ns p holds unused f = (p, g, refl, holds)
run-Holds fuel (c ∷ cs) h g ns p holds (unused, rest) f =
    let (p', g', runs, holds') = call-Holds fuel c h g ns p holds unused (omega arith) in
    rw runs (run-Holds fuel cs h g' (after c ns) p' holds' rest (omega (arith, length-after c ns)))
