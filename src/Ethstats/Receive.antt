-- ===== src/Ethstats/Receive.antt =====
-- The receive loop of assignment2.c against the list of what it has seen.
use grnvs.Prelude.{
  ℕ, zero, suc, ◌+◌, ◌<◌, ◌≤◌, ◌≡◌, ◌≢◌, refl, true, false, none, [], ◌∷◌, ◌++◌, arith, ◌==◌,
  if◌then◌else◌, length, length-append, get_or, Bool-cases, inl, inr, ◌∙◌, append-nil, append_assoc,
}
use grnvs.Prelude.Run.{Ends}
use grnvs.Prelude.Words.{u16, u32}
use grnvs.EthFrame.{Bytes, is_multicast, get_mac, macs_equal, get_type}
use grnvs.TypeInfo.{Ptr, null, Heap}
use grnvs.TypeInfo.Seg.{Cells, has, Linked}
use grnvs.Ethstats.{Doubles, Reading, Stats, fill, handle, read_frame, receive, start_stats}
use grnvs.Ethstats.Table.{Event, Events, IsTable, tally, tally-IsTable, length-tally, start-IsTable}
use grnvs.Ethstats.Heap.{has-tally, not-has-tally, not-has_of_tally, count_type-tally}

-- What a frame adds: the fields are read from the buffer, which the frame was copied over.
abbrev pub event : Bytes → Bytes → Event
event frame buffer = record {
  type = u16 (get_type buffer);
  len = length frame;
  dest = get_mac buffer 0;
}

-- The frames of the rounds from `i` on, at most `left` of them, up to the first timeout.
unfoldable pub seen : Doubles → (ℕ → Reading) → ℕ → ℕ → Bytes → Events
seen D reads zero i buffer = []
seen D reads (suc left) i buffer =
    let frame = (reads i).frame in
    let after = fill D frame buffer in
    let rest = event frame after ∷ seen D reads left (i + 1) after in
    if length frame == 0 then [] else rest

pub length-seen :
    (D : Doubles) (reads : ℕ → Reading) (left i : ℕ) (buffer : Bytes)
    → length (seen D reads left i buffer) ≤ left
unfolding seen
length-seen D reads zero i buffer = omega arith
length-seen D reads (suc left) i buffer =
    ground (arith, length-seen D reads left (i + 1) (fill D (reads i).frame buffer))

-- Frames for an address, multicast frames, bytes.
abbrev pub own_of : Bytes → Events → ℕ
own_of mymac [] = 0
own_of mymac (e ∷ es) = (if macs_equal mymac e.dest == 0 then 0 else 1) + own_of mymac es

abbrev pub multicast_of : Events → ℕ
multicast_of [] = 0
multicast_of (e ∷ es) = (if is_multicast (get_or e.dest 0 0) == 0 then 0 else 1) + multicast_of es

abbrev pub total_of : Events → ℕ
total_of [] = 0
total_of (e ∷ es) = e.len + total_of es

module _ (mymac : Bytes) (e : Event) where
  own_of-append :
      (es : Events)
      → own_of mymac (es ++ e ∷ [])
        ≡ own_of mymac es + (if macs_equal mymac e.dest == 0 then 0 else 1)
  own_of-append [] = ground arith
  own_of-append (d ∷ es) = ground (arith, own_of-append es)

  multicast_of-append :
      (es : Events)
      → multicast_of (es ++ e ∷ [])
        ≡ multicast_of es + (if is_multicast (get_or e.dest 0 0) == 0 then 0 else 1)
  multicast_of-append [] = ground arith
  multicast_of-append (d ∷ es) = ground (arith, multicast_of-append es)

  total_of-append : (es : Events) → total_of (es ++ e ∷ []) ≡ total_of es + e.len
  total_of-append [] = omega arith
  total_of-append (d ∷ es) = omega (arith, total_of-append es)

-- `malloc` succeeds in every round, with a pointer that is unused at the start and given out once.
pub record Allocates (reads : ℕ → Reading) (h : Heap) : Type 0 where
  pub ne_null : (i : ℕ) → (reads i).fresh ≢ null
  pub unused : (i : ℕ) → h (reads i).fresh ≡ none
  pub once : (i j : ℕ) → i < j → (reads j).fresh ≢ (reads i).fresh

module _ (D : Doubles) (fuel : ℕ) (mymac : Bytes) (reads : ℕ → Reading) (h₀ : Heap) where
  -- The statistics and the heap before round `i`, with the frames `es` behind it.
  pub record Tracks (es : Events) (cs : Cells) (i : ℕ) (s : Stats D) (h : Heap) : Type 0 where
    pub linked : Linked h s.info_list cs
    pub table : IsTable es cs
    pub own : s.my_frames ≡ u32 (own_of mymac es)
    pub multicast : s.multicast_frames ≡ u32 (multicast_of es)
    pub total : s.total_byte ≡ u32 (total_of es)
    pub size : length cs ≤ length es
    pub ahead : (j : ℕ) → i ≤ j → has (reads j).fresh cs ≡ false
    pub outside : (a : Ptr) → has a cs ≡ false → h a ≡ h₀ a
    pub inside : (a : Ptr) → has a cs ≡ true → h₀ a ≡ none

  pub start-Tracks : (buffer : Bytes) → Tracks [] [] 0 (start_stats D fuel mymac buffer) h₀
  unfolding start_stats
  start-Tracks buffer = record {
    linked = refl;
    table = start-IsTable;
    own = refl;
    multicast = refl;
    total = refl;
    size = omega arith;
    ahead = λ j _. refl;
    outside = λ a _. refl;
    inside = λ a i. cc;
  }

  handle-Tracks :
      (es : Events) (cs : Cells) (i : ℕ) (s : Stats D) (h : Heap)
      → Allocates reads h₀
      → length es < fuel
      → Tracks es cs i s h
      → let r = reads i in
        let e = event r.frame s.recbuffer in
        Ends
          (λ s' g.
            Tracks (es ++ e ∷ []) (tally r.fresh e.type e.len cs) (i + 1) s' g
            × (s'.recbuffer ≡ s.recbuffer))
          (handle D fuel mymac r s h)
  unfolding handle
  handle-Tracks es cs i s h alloc f t =
      let r = reads i in
      let e = event r.frame s.recbuffer in
      let unused : h r.fresh ≡ none =
        t.outside r.fresh (t.ahead i (omega arith)) ∙ alloc.unused i in
      let (p, g, runs, (l, same)) =
        count_type-tally D fuel h s.info_list r.fresh e.type e.len cs t.linked (alloc.ne_null i)
          unused (omega (arith, t.size)) in
      rw runs (
        _,
        g,
        refl,
        (
          record {
            linked = l;
            table = tally-IsTable e r.fresh es cs t.table;
            own = ground (arith, t.own, own_of-append mymac e es);
            multicast = ground (arith, t.multicast, multicast_of-append mymac e es);
            total = omega (arith, t.total, total_of-append mymac e es);
            size =
                omega
                  (arith, t.size, length-tally e.type e.len r.fresh cs, length-append es (e ∷ []));
            ahead = λ j le.
                not-has-tally (reads j).fresh r.fresh e.type e.len cs (t.ahead j (omega arith))
                  (alloc.once i j (omega arith));
            outside = λ a o. same a o ∙ t.outside a (not-has_of_tally a r.fresh e.type e.len cs o);
            inside = λ a b.
                ground (arith, has-tally a r.fresh e.type e.len cs, t.inside a, alloc.unused i);
          },
          refl,
        ),
      )

  read_frame-Tracks :
      (es : Events) (cs : Cells) (i : ℕ) (s : Stats D) (h : Heap) (r : Reading)
      → Tracks es cs i s h
      → Tracks es cs i (read_frame D fuel mymac r s) h
  unfolding read_frame
  read_frame-Tracks es cs i s h r t = record {
    linked = t.linked;
    table = t.table;
    own = t.own;
    multicast = t.multicast;
    total = t.total;
    size = t.size;
    ahead = t.ahead;
    outside = t.outside;
    inside = t.inside;
  }

  -- The loop sees the frames of its rounds, up to the first timeout.
  pub receive-Tracks :
      (left i : ℕ) (es : Events) (cs : Cells) (s : Stats D) (h : Heap)
      → Allocates reads h₀
      → length es + left < fuel
      → Tracks es cs i s h
      → Ends
          (λ s' g.
            (cs' : Cells) × (i' : ℕ) × Tracks (es ++ seen D reads left i s.recbuffer) cs' i' s' g)
          (receive D fuel mymac reads left i s h)
  unfolding receive seen
  receive-Tracks zero i es cs s h alloc f t = (s, h, refl, (cs, i, rw append-nil t))
  receive-Tracks (suc left) i es cs s h alloc f t =
      elim (Bool-cases (length (reads i).frame == 0)) [
        | inl timeout ↦ rw timeout (
          read_frame D fuel mymac (reads i) s,
          h,
          refl,
          (cs, i, rw append-nil (read_frame-Tracks es cs i s h (reads i) t)),
        )
        | inr got ↦
            let r = reads i in
            let s₁ = read_frame D fuel mymac r s in
            let e = event r.frame s₁.recbuffer in
            let (s₂, g, runs, (t₂, same)) =
              handle-Tracks es cs i s₁ h alloc (omega arith) (read_frame-Tracks es cs i s h r t) in
            let (s₃, g₃, runs₃, (cs₃, i₃, t₃)) =
              receive-Tracks left (i + 1) (es ++ e ∷ []) (tally r.fresh e.type e.len cs) s₂ g alloc
                (omega (arith, length-append es (e ∷ []))) t₂ in
            rw (got, runs) (s₃, g₃, runs₃, (cs₃, i₃, rw (same, append_assoc) at t₃))
      ]
