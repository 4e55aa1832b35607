-- ===== src/TypeInfo/Seg.antt =====
-- What a list of assignment2.c stands for: its nodes in order, each with its address.
use grnvs.Prelude.{
  ℕ, ◌≡◌, ◌≢◌, refl, Bool, true, false, ◌||◌, Option, none, some, List, [], ◌∷◌, ◌++◌, arith, ◌==◌,
  ==_ne,
}
use grnvs.Prelude.Run.{ok, fault}
use grnvs.TypeInfo.{Ptr, null, TypeInfo, Heap, write, load, store, set_next, free}

-- A node: its address and its fields but for `next`.
pub record Cell : Type 0 where
  pub at : Ptr
  pub type : ℕ
  pub frames : ℕ
  pub bytes : ℕ

abbrev pub node : Cell → Ptr → TypeInfo
node c q = record { eth_type = c.type; frame_counter = c.frames; byte_counter = c.bytes; next = q }

abbrev pub Cells : Type 0
Cells = List Cell

abbrev pub has : Ptr → Cells → Bool
has a [] = false
has a (c ∷ cs) = (a == c.at) || has a cs

-- From `p` the `next` pointers lead through the distinct nodes `cs` to NULL.
abbrev pub Linked : Heap → Ptr → Cells → Type 0
Linked h p [] = p ≡ null
Linked h p (c ∷ cs) =
    (q : Ptr) × (p ≡ c.at)
    × (c.at ≢ null)
    × (h c.at ≡ some (node c q))
    × (has c.at cs ≡ false)
    × Linked h q cs

-- `g` agrees with `h` at every address that is not in `cs`.
abbrev pub SameOutside : Cells → Heap → Heap → Type 0
SameOutside cs h g = (a : Ptr) → has a cs ≡ false → g a ≡ h a

pub has-append : (a : Ptr) (cs ds : Cells) → has a (cs ++ ds) ≡ (has a cs || has a ds)
has-append a [] ds = refl
has-append a (c ∷ cs) ds = ground (arith, has-append a cs ds)

Linked-frame :
    (h g : Heap) (p : Ptr) (cs : Cells)
    → Linked h p cs
    → ((a : Ptr) → has a cs ≡ true → g a ≡ h a)
    → Linked g p cs
Linked-frame h g p [] l same = l
Linked-frame h g p (c ∷ cs) (q, e, ne, here, out, l) same = (
  q,
  e,
  ne,
  ground (arith, same c.at),
  out,
  Linked-frame h g q cs l (λ a i. same a (ground arith)),
)

pub Linked-write :
    (h : Heap) (p a : Ptr) (v : Option TypeInfo) (cs : Cells)
    → Linked h p cs
    → has a cs ≡ false
    → Linked (write h a v) p cs
unfolding write
Linked-write h p a v cs l out = Linked-frame h (write h a v) p cs l (λ b i. ground arith)

pub not-has_of_none :
    (h : Heap) (p a : Ptr) (cs : Cells) → Linked h p cs → h a ≡ none → has a cs ≡ false
not-has_of_none h p a [] l unused = refl
not-has_of_none h p a (c ∷ cs) (q, e, ne, here, out, l) unused =
    ground (arith, not-has_of_none h q a cs l unused)

module _ (h : Heap) (p : Ptr) (n : TypeInfo) (ne : p ≢ null) (here : h p ≡ some n) where
  pub load-ok : load p h ≡ ok n h
  unfolding load
  load-ok = rw (==_ne p null ne, here)

  pub store-ok : (m : TypeInfo) → store p m h ≡ ok tt (write h p (some m))
  unfolding store
  store-ok m = rw load-ok

  pub set_next-ok : (q : Ptr) → set_next p q h ≡ ok tt (write h p (some (record n { next = q })))
  unfolding set_next
  set_next-ok q = rw load-ok (store-ok (record n { next = q }))

  pub free-ok : free p h ≡ ok tt (write h p none)
  unfolding free
  free-ok = rw load-ok

pub load-null : (h : Heap) → load null h ≡ fault
unfolding load
load-null h = refl
