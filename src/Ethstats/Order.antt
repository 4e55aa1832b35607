-- ===== src/Ethstats/Order.antt =====
-- The order in which frames arrive plays no part in what assignment2.c counts.
use mathlib.Core.List.{Perm, Permᴰ}
use mathlib.Core.List.Permᴰ.{nil, cons, swap, trans}
use mathlib.Core.Logic.{∥∥₁_elim}
use native.Mathlib.Nat.{ℕ_set}
use grnvs.Prelude.{
  ℕ, ◌+◌, ◌<◌, ◌≡◌, refl, none, some, List, [], ◌∷◌, ◌++◌, arith, ◌==◌, if◌then◌else◌, Bool-cases,
  inl, inr, map, append_assoc, ap, ap₂, ◌∙◌, sym, get_or,
}
use grnvs.Prelude.Words.{u32, signed32}
use grnvs.Prelude.Run.{Ends}
use grnvs.Prelude.Int.{ℤ, pos_part}
use grnvs.EthFrame.{Bytes, is_multicast, macs_equal}
use grnvs.TypeInfo.Seg.{Cell, Cells}
use grnvs.Ethstats.{
  Doubles, Reading, Line, ready, type_line, own_line, multicast_line, rates, assignment2,
}
use grnvs.Ethstats.Table.{Event, Events, frames_of, bytes_of, find_entry}
use grnvs.Ethstats.Table.Sort.{AllTypes, Ascending}
use grnvs.Ethstats.Receive.{own_of, multicast_of, total_of, seen, Allocates}
use grnvs.Ethstats.Laws.{IsSummary, assignment2-IsSummary}
use grnvs.TypeInfo.{Heap}
use grnvs.Ethstats.Summary.{line_of}

-- The sum of a weight over all frames.
abbrev sum_of : (Event → ℕ) → Events → ℕ
sum_of weight [] = 0
sum_of weight (e ∷ es) = weight e + sum_of weight es

module _ (weight : Event → ℕ) where
  sum_of-step : {es es' : Events} → Permᴰ es es' → sum_of weight es ≡ sum_of weight es'
  sum_of-step nil = refl
  sum_of-step (cons e p) = ap₂ ◌+◌ (ap weight e) (sum_of-step p)
  sum_of-step (swap {l = l} e f) = omega (arith, ap weight e, ap weight f)
  sum_of-step (trans p q) = sum_of-step p ∙ sum_of-step q

  -- It is the same for all orders.
  sum_of-perm : {es es' : Events} → Perm es es' → sum_of weight es ≡ sum_of weight es'
  sum_of-perm p = ∥∥₁_elim p (ℕ_set _ _) sum_of-step

-- The counts are such sums.
frames_of-sum :
    (t : ℕ) (es : Events) → frames_of t es ≡ sum_of (λ e. if e.type == t then 1 else 0) es
frames_of-sum t [] = refl
frames_of-sum t (e ∷ es) = ap (λ n. (if e.type == t then 1 else 0) + n) (frames_of-sum t es)

bytes_of-sum :
    (t : ℕ) (es : Events) → bytes_of t es ≡ sum_of (λ e. if e.type == t then e.len else 0) es
bytes_of-sum t [] = refl
bytes_of-sum t (e ∷ es) = ap (λ n. (if e.type == t then e.len else 0) + n) (bytes_of-sum t es)

own_of-sum :
    (mymac : Bytes) (es : Events)
    → own_of mymac es ≡ sum_of (λ e. if macs_equal mymac e.dest == 0 then 0 else 1) es
own_of-sum mymac [] = refl
own_of-sum mymac (e ∷ es) =
    ap (λ n. (if macs_equal mymac e.dest == 0 then 0 else 1) + n) (own_of-sum mymac es)

multicast_of-sum :
    (es : Events)
    → multicast_of es ≡ sum_of (λ e. if is_multicast (get_or e.dest 0 0) == 0 then 0 else 1) es
multicast_of-sum [] = refl
multicast_of-sum (e ∷ es) =
    ap (λ n. (if is_multicast (get_or e.dest 0 0) == 0 then 0 else 1) + n) (multicast_of-sum es)

total_of-sum : (es : Events) → total_of es ≡ sum_of (λ e. e.len) es
total_of-sum [] = refl
total_of-sum (e ∷ es) = ap (λ n. e.len + n) (total_of-sum es)

-- A count that is a sum is the same for all orders.
same_sum :
    (f : Events → ℕ) (weight : Event → ℕ) {es es' : Events}
    → ((xs : Events) → f xs ≡ sum_of weight xs)
    → Perm es es'
    → f es ≡ f es'
same_sum f weight {es} {es'} h p = h es ∙ (sum_of-perm weight p ∙ sym (h es'))

-- No cell below the others has their types.
find_entry-above : (t : ℕ) (cs : Cells) → AllTypes (λ s. t < s) cs → find_entry t cs ≡ none
find_entry-above t [] k = refl
find_entry-above t (c ∷ cs) (lt, k) = ground (arith, find_entry-above t cs k)

AllTypes-trans :
    (s t : ℕ) (cs : Cells) → s < t → AllTypes (λ r. t < r) cs → AllTypes (λ r. s < r) cs
AllTypes-trans s t [] lt k = tt
AllTypes-trans s t (c ∷ cs) lt (h, k) = (omega arith, AllTypes-trans s t cs lt k)

-- Two tables answer alike for every type.
abbrev SameEntries : Cells → Cells → Type 0
SameEntries cs ds = (t : ℕ) → find_entry t cs ≡ find_entry t ds

heads-same :
    (c d : Cell) (cs ds : Cells)
    → Ascending (c ∷ cs)
    → Ascending (d ∷ ds)
    → SameEntries (c ∷ cs) (d ∷ ds)
    → (c.type ≡ d.type) × (c.frames ≡ d.frames) × (c.bytes ≡ d.bytes)
heads-same c d cs ds (above, _) (above', _) same =
    let at_c = same c.type in
    let at_d = same d.type in
    let not_below : d.type < c.type → ⊥ = λ lt.
      ground (arith, at_d, find_entry-above d.type cs (AllTypes-trans d.type c.type cs lt above)) in
    let not_above : c.type < d.type → ⊥ = λ lt.
      ground
        (arith, at_c, find_entry-above c.type ds (AllTypes-trans c.type d.type ds lt above')) in
    let types : c.type ≡ d.type = omega arith in
    (types, ground (arith, types, at_c), ground (arith, types, at_c))

tails-same :
    (c d : Cell) (cs ds : Cells)
    → Ascending (c ∷ cs)
    → Ascending (d ∷ ds)
    → c.type ≡ d.type
    → SameEntries (c ∷ cs) (d ∷ ds)
    → SameEntries cs ds
tails-same c d cs ds (above, _) (above', _) types same t = elim (Bool-cases (c.type == t)) [
  | inl hit ↦
      let e : c.type ≡ t = ground arith in
      ap (λ s. find_entry s cs) (sym e)
      ∙ (find_entry-above c.type cs above
          ∙ (sym (find_entry-above d.type ds above') ∙ ap (λ s. find_entry s ds) (sym types ∙ e)))
  | inr miss ↦ ground (arith, same t)
]

lines-same :
    (D : Doubles) (cs ds : Cells)
    → Ascending cs
    → Ascending ds
    → SameEntries cs ds
    → map (line_of D) cs ≡ map (line_of D) ds
lines-same D [] [] k k' same = refl
lines-same D [] (d ∷ ds) k k' same = absurd (ground (arith, same d.type))
lines-same D (c ∷ cs) [] k k' same = absurd (ground (arith, same c.type))
lines-same D (c ∷ cs) (d ∷ ds) k k' same =
    let (type, frames, bytes) = heads-same c d cs ds k k' same in
    ap₂ ◌∷◌ (λ i. type_line (type i) (signed32 (frames i)) (signed32 (bytes i)))
      (lines-same D cs ds k.1 k'.1 (tails-same c d cs ds k k' type same))

-- What is printed in front of the rates.
abbrev pub counts_of : (D : Doubles) → (mymac : Bytes) → Cells → Events → List (Line D)
counts_of D mymac cells es =
    ready
    ∷ (map (line_of D) cells
        ++ (own_line (signed32 (u32 (own_of mymac es)))
            ∷ multicast_line (signed32 (u32 (multicast_of es)))
            ∷ []))

module _ (D : Doubles) (mymac : Bytes) {es es' : Events} (p : Perm es es') where
  entries-same :
      (cs ds : Cells)
      → ((t : ℕ)
          → find_entry t cs ≡ (
              if frames_of t es == 0
              then none
              else some (u32 (frames_of t es), u32 (bytes_of t es))))
      → ((t : ℕ)
          → find_entry t ds ≡ (
              if frames_of t es' == 0
              then none
              else some (u32 (frames_of t es'), u32 (bytes_of t es'))))
      → SameEntries cs ds
  entries-same cs ds h h' t =
      let frames = same_sum (frames_of t) (λ e. if e.type == t then 1 else 0) (frames_of-sum t) p in
      let bytes =
        same_sum (bytes_of t) (λ e. if e.type == t then e.len else 0) (bytes_of-sum t) p in
      h t ∙ (rw (frames, bytes) (sym (h' t)))

  counts-same :
      (cs ds : Cells)
      → Ascending cs
      → Ascending ds
      → SameEntries cs ds
      → counts_of D mymac cs es ≡ counts_of D mymac ds es'
  counts-same cs ds k k' same =
      rw
        (
          lines-same D cs ds k k' same,
          same_sum (own_of mymac) (λ e. if macs_equal mymac e.dest == 0 then 0 else 1)
              (own_of-sum mymac) p,
          same_sum multicast_of (λ e. if is_multicast (get_or e.dest 0 0) == 0 then 0 else 1)
              multicast_of-sum p,
        )
        refl

-- What a summary prints, with its rates apart.
summary-counts :
    (D : Doubles) (fuel : ℕ) (mymac : Bytes) (es : Events) (out : List (Line D))
    → (k : IsSummary D fuel mymac es out)
    → out ≡ counts_of D mymac k.cells es ++ rates D fuel mymac (u32 (total_of es)) k.time ∷ []
summary-counts D fuel mymac es out k =
    k.lines
    ∙ ap (λ ls. ready ∷ ls)
        (sym (
          append_assoc (map (line_of D) k.cells)
            (own_line (signed32 (u32 (own_of mymac es)))
              ∷ multicast_line (signed32 (u32 (multicast_of es)))
              ∷ [])
            (rates D fuel mymac (u32 (total_of es)) k.time ∷ [])))

-- Two calls that see the same frames up to their order, as often and with the same lengths and
-- destinations, end without a fault and print the same lines, but for the rates, which are those of
-- the same number of bytes over times of their own. Every `malloc` succeeds, and both have more fuel
-- than frames and one.
pub assignment2-perm :
    (D : Doubles) (fuel : ℕ) (mymac : Bytes) (reads reads' : ℕ → Reading) (frames frames' : ℤ)
    (recbuffer recbuffer' : Bytes) (h h' : Heap)
    → Allocates reads h
    → Allocates reads' h'
    → pos_part frames + 1 < fuel
    → pos_part frames' + 1 < fuel
    → Perm
        (seen D reads (pos_part frames) 0 recbuffer)
        (seen D reads' (pos_part frames') 0 recbuffer')
    → (counts : List (Line D)) × (total : ℕ) × (time time' : D.Double) × Ends
        (λ out _. out ≡ counts ++ rates D fuel mymac total time ∷ [])
        (assignment2 D fuel mymac reads frames recbuffer h)
      × Ends
          (λ out _. out ≡ counts ++ rates D fuel mymac total time' ∷ [])
          (assignment2 D fuel mymac reads' frames' recbuffer' h')
assignment2-perm D fuel mymac reads reads' frames frames' recbuffer recbuffer' h h' alloc alloc' f
      f' p =
    let (out, g, runs, (k, _)) =
      assignment2-IsSummary D fuel mymac reads frames recbuffer h alloc f in
    let (out', g', runs', (k', _)) =
      assignment2-IsSummary D fuel mymac reads' frames' recbuffer' h' alloc' f' in
    let es = seen D reads (pos_part frames) 0 recbuffer in
    let es' = seen D reads' (pos_part frames') 0 recbuffer' in
    let counts =
      counts-same D mymac p k.cells k'.cells k.ascending k'.ascending
        (entries-same D mymac p k.cells k'.cells k.counts k'.counts) in
    let total : u32 (total_of es) ≡ u32 (total_of es') =
      ap u32 (same_sum total_of (λ e. e.len) total_of-sum p) in
    (
      counts_of D mymac k.cells es,
      u32 (total_of es),
      k.time,
      k'.time,
      (out, g, runs, summary-counts D fuel mymac es out k),
      (
        out',
        g',
        runs',
        summary-counts D fuel mymac es' out' k'
            ∙ (λ i. sym counts i ++ rates D fuel mymac (sym total i) k'.time ∷ []),
      ),
    )
