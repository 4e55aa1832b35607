-- ===== src/Ethstats/Laws.antt =====
-- What `assignment2` of assignment2/src/assignment2.c prints.
use grnvs.Prelude.{
  ℕ, ◌+◌, ◌<◌, ◌≡◌, refl, none, some, List, [], ◌∷◌, ◌++◌, arith, ◌==◌, if◌then◌else◌, length, map,
  ◌∙◌,
}
use grnvs.Prelude.Int.{ℤ, pos_part}
use grnvs.Prelude.Run.{Ends}
use grnvs.Prelude.Words.{u32, signed32}
use grnvs.EthFrame.{Bytes}
use grnvs.TypeInfo.{Ptr, Heap}
use grnvs.TypeInfo.Seg.{Cells}
use grnvs.Ethstats.{
  Doubles, Reading, Line, ready, own_line, multicast_line, start_stats, rates, assignment2,
}
use grnvs.Ethstats.Table.{Events, find_entry, frames_of, bytes_of}
use grnvs.Ethstats.Table.Sort.{sort, Ascending, sort-Ascending, find_entry-sort}
use grnvs.Ethstats.Receive.{
  seen, length-seen, own_of, multicast_of, total_of, Allocates, start-Tracks, receive-Tracks,
}
use grnvs.Ethstats.Summary.{line_of, summary-sort}

-- What is printed for the frames `es`: the ready marker; one line for each EtherType seen, in
-- strictly ascending order, with its frames and bytes modulo 2^32; the counts of frames for the own
-- address and of multicast frames; and the rates of all bytes over some time.
pub record IsSummary (D : Doubles) (fuel : ℕ) (mymac : Bytes) (es : Events) (out : List (Line D))
    : Type 0 where
  pub cells : Cells
  pub time : D.Double
  pub lines :
      out
      ≡ ready
        ∷ (map (line_of D) cells
            ++ (own_line (signed32 (u32 (own_of mymac es)))
                ∷ multicast_line (signed32 (u32 (multicast_of es)))
                ∷ rates D fuel mymac (u32 (total_of es)) time
                ∷ []))
  pub ascending : Ascending cells
  pub counts :
      (t : ℕ)
      → find_entry t cells
        ≡ (if frames_of t es == 0 then none else some (u32 (frames_of t es), u32 (bytes_of t es)))

-- If every `malloc` succeeds, and with more fuel than `frames` and one, a call ends without a fault, prints the summary of the frames that it
-- received before the first timeout, at most `frames` of them, and leaves the heap as it found it:
-- every node is freed.
pub assignment2-IsSummary :
    (D : Doubles) (fuel : ℕ) (mymac : Bytes) (reads : ℕ → Reading) (frames : ℤ) (recbuffer : Bytes)
    (h : Heap)
    → Allocates reads h
    → pos_part frames + 1 < fuel
    → Ends
        (λ out g.
          IsSummary D fuel mymac (seen D reads (pos_part frames) 0 recbuffer) out
          × ((a : Ptr) → g a ≡ h a))
        (assignment2 D fuel mymac reads frames recbuffer h)
unfolding assignment2 start_stats
assignment2-IsSummary D fuel mymac reads frames recbuffer h alloc f =
    let n = pos_part frames in
    let es = seen D reads n 0 recbuffer in
    let (s, g, runs, (cs, i, t)) =
      receive-Tracks D fuel mymac reads h n 0 [] [] (start_stats D fuel mymac recbuffer) h alloc
        (omega arith) (start-Tracks D fuel mymac reads h recbuffer) in
    let small : length cs < fuel = omega (arith, t.size, length-seen D reads n 0 recbuffer) in
    let (lines, g', runs', (e, gone)) =
      summary-sort D fuel mymac fuel g s.info_list cs t.linked t.table.distinct small small in
    rw (runs, runs')
      (
        _,
        g',
        refl,
        (
          record {
            cells = sort fuel cs;
            time = s.total_time;
            lines = rw (e, t.own, t.multicast, t.total);
            ascending = sort-Ascending fuel cs t.table.distinct;
            counts = λ type.
                find_entry-sort type fuel cs t.table.distinct (omega arith) ∙ t.table.counts type;
          },
          λ a. ground (arith, gone a, t.outside a, t.inside a),
        ),
      )
