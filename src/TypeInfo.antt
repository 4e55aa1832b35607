-- ===== src/TypeInfo.antt =====
-- assignment2/src/assignment2.c, lines 16 to 105: the linked list of `struct typeInfo`, one node for
-- each EtherType, over an explicit heap. A command returns its value and the new heap, or faults:
-- reading through NULL or a freed pointer is `fault`. The pointer that `malloc` returns is an
-- argument of `new_info`. Loops along the list run on fuel, one unit a node.
pub mod Seg
pub mod Find
pub mod Insert
pub mod Remove
pub mod Free
pub mod History
mod Tests
use grnvs.Prelude.{
  ℕ, zero, suc, ◌+◌, ◌≡◌, Bool, true, false, Option, none, some, ◌==◌, ltb, if◌then◌else◌,
}
use grnvs.Prelude.Run
use grnvs.Prelude.Run.{ok, fault, out_of_fuel, pure, continue, ◌>>=◌, ◌>>◌}

abbrev pub Ptr : Type 0
Ptr = ℕ

abbrev pub null : Ptr
null = 0

-- `struct typeInfo`
pub record TypeInfo : Type 0 where
  pub eth_type : ℕ
  pub frame_counter : ℕ
  pub byte_counter : ℕ
  pub next : Ptr

abbrev pub Heap : Type 0
Heap = Ptr → Option TypeInfo

unfoldable pub write : Heap → Ptr → Option TypeInfo → Heap
write h p c a = if a == p then c else h a

abbrev pub Cmd : Type 0 → Type 0
Cmd A = Run.Cmd Heap A

-- `*p`
unfoldable pub load : Ptr → Cmd TypeInfo
load p h = if p == null then fault else elim (h p) [ none ↦ fault | some n ↦ ok n h ]

-- `*p = n` at a node that is there
unfoldable pub store : Ptr → TypeInfo → Cmd (Unit {0})
store p n h = continue (λ _ h'. ok tt (write h' p (some n))) (load p h)

-- `p->next = q`
unfoldable pub set_next : Ptr → Ptr → Cmd (Unit {0})
set_next p q = do n ← load p; store p (record n { next = q })

unfoldable pub free : Ptr → Cmd (Unit {0})
free p h = continue (λ _ h'. ok tt (write h' p none)) (load p h)

-- `newInfo`: `fresh` is what `malloc` returns
unfoldable pub new_info : (fresh : Ptr) → ℕ → Cmd Ptr
new_info fresh type h =
    if fresh == null
    then ok fresh h
    else ok fresh (
        write h fresh
          (some (record { eth_type = type; frame_counter = 0; byte_counter = 0; next = null })))

-- `getInfoByType`
unfoldable pub get_info_by_type : ℕ → ℕ → Ptr → Cmd Ptr
get_info_by_type zero type temp = λ _. out_of_fuel
get_info_by_type (suc fuel) type temp = if temp == null then pure temp else do
  n ← load temp
  if n.eth_type == type then pure temp else get_info_by_type fuel type n.next

-- `freeInfo`; `head` is the node to read and `temp`, the node to free, is the same one
unfoldable pub free_info : ℕ → Ptr → Cmd (Unit {0})
free_info zero head = λ _. out_of_fuel
free_info (suc fuel) head =
    if head == null then pure tt else do n ← load head; free head; free_info fuel n.next

-- The loop of `insertInfo`, and the write behind it
unfoldable pub append_loop : ℕ → (temp new : Ptr) → Cmd (Unit {0})
append_loop zero temp new = λ _. out_of_fuel
append_loop (suc fuel) temp new = do
  n ← load temp
  if n.next == null then set_next temp new else append_loop fuel n.next new

-- `insertInfo`
unfoldable pub insert_info : ℕ → (new head : Ptr) → Cmd Ptr
unfolding append_loop
insert_info fuel new head =
    if head == null then pure new else do append_loop fuel head new; pure head

-- The loop of `removeByType` at `temp`, and what follows it
unfoldable pub unlink_loop : ℕ → ℕ → (temp : Ptr) → Cmd (Unit {0})
unlink_loop zero type temp = λ _. out_of_fuel
unlink_loop (suc fuel) type temp = do
  n ← load temp
  if n.next == null then pure tt else do
    t ← load n.next
    if t.eth_type == type
        then (do set_next temp t.next; free n.next)
        else unlink_loop fuel type n.next

-- `removeByType`
unfoldable pub remove_by_type : ℕ → ℕ → (head : Ptr) → Cmd Ptr
unfolding unlink_loop
remove_by_type fuel type head = if head == null then pure head else do
  n ← load head
  if n.eth_type == type
      then (do free head; pure n.next)
      else (do unlink_loop fuel type head; pure head)

-- The loop of `min`
unfoldable pub min_loop : ℕ → (temp cur : Ptr) → Cmd Ptr
min_loop zero temp cur = λ _. out_of_fuel
min_loop (suc fuel) temp cur = if temp == null then pure cur else do
  t ← load temp
  c ← load cur
  min_loop fuel t.next (if ltb t.eth_type c.eth_type then temp else cur)

-- `min`
unfoldable pub min : ℕ → (head : Ptr) → Cmd Ptr
unfolding min_loop
min fuel head = min_loop fuel head head
