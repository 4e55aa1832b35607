-- ===== src/TypeInfo/Tests.antt =====
-- The theorems on the list of assignment2/src/assignment2.c at a list of two nodes.
use grnvs.Prelude.{refl, List, none, some, [], ◌∷◌, arith}
use grnvs.Prelude.Run.{Ends}
use grnvs.TypeInfo.{Heap, write, remove_by_type}
use grnvs.TypeInfo.Seg.{Cell, Cells, node, Linked}
use grnvs.TypeInfo.Remove.{Erased, remove_by_type-Erased}
use grnvs.TypeInfo.Remove.{erase_type}
use grnvs.TypeInfo.History.{Call, insert, remove, AllUnused, Holds, replay, run, run-Holds}

abbrev ip6 : Cell
ip6 = record { at = 1; type = 0x86dd; frames = 2; bytes = 130 }

abbrev arp : Cell
arp = record { at = 2; type = 0x806; frames = 1; bytes = 60 }

abbrev ip4 : Cell
ip4 = record { at = 3; type = 0x800; frames = 0; bytes = 0 }

abbrev cells : Cells
cells = ip6 ∷ arp ∷ []

abbrev heap : Heap
heap =
    write (write (write (λ _. none) 1 (some (node ip6 2))) 2 (some (node arp 0))) 3
      (some (node ip4 0))

cells-Linked : Linked heap 1 cells
unfolding write
cells-Linked = (2, refl, ground arith, refl, refl, (0, refl, ground arith, refl, refl, refl))

ip4-Linked : Linked heap 3 (ip4 ∷ [])
unfolding write
ip4-Linked = (0, refl, ground arith, refl, refl, refl)

remove_by_type-Erased_example : Ends (Erased heap 0x806 cells) (remove_by_type 3 0x806 1 heap)
remove_by_type-Erased_example =
    remove_by_type-Erased 3 0x806 heap 1 cells cells-Linked (omega arith)

-- A node at the address 3 is not of the list.
abbrev elsewhere : Heap
elsewhere = write (λ _. none) 3 (some (node ip4 0))

abbrev calls : List Call
calls = insert 1 0x86dd ∷ insert 2 0x800 ∷ remove 0x86dd ∷ insert 1 0x806 ∷ []

calls-AllUnused : AllUnused elsewhere calls []
unfolding write erase_type
calls-AllUnused = ground arith

run-Holds_example : Ends (Holds elsewhere (replay calls [])) (run 5 calls 0 elsewhere)
run-Holds_example =
    run-Holds 5 calls elsewhere elsewhere [] 0 (refl, λ a i. absurd (ground arith), λ a o. refl)
      calls-AllUnused (omega arith)
