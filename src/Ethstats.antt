-- ===== src/Ethstats.antt =====
-- assignment2/src/assignment2.c, `assignment2`: reads a number of Ethernet frames, keeps one
-- `struct typeInfo` for each EtherType, counts frames for the own address and multicast frames, and
-- prints a summary sorted by EtherType.
-- What the environment gives is an argument: the frame that `grnvs_read` delivers in each round
-- (no bytes: the read timed out), the clock readings around it, the pointer that `malloc` would
-- return, the own address, and the arithmetic of `double`. Loops along the list take `fuel`.
pub mod Table
pub mod Heap
pub mod Receive
pub mod Summary
pub mod Laws
pub mod Order
pub mod Arguments
pub mod Main
mod Tests
use grnvs.Prelude.{
  ℕ, zero, suc, ◌+◌, ◌*◌, ◌%◌, ◌^◌, ◌≡◌, Bool, true, false, List, [], ◌∷◌, ◌++◌, ◌==◌,
  if◌then◌else◌, get_or, drop, length, replicate,
}
use grnvs.Prelude.Int.{ℤ, pos_part}
use grnvs.Prelude.Words.{u16, u32, signed32}
use grnvs.Prelude.Run.{ok, out_of_fuel, pure, ◌>>=◌, ◌>>◌}
use grnvs.EthFrame.{Bytes, is_multicast, get_mac, macs_equal, get_type}
use grnvs.TypeInfo.{
  Ptr, null, TypeInfo, Cmd, load, store, new_info, get_info_by_type, insert_info, remove_by_type,
  min,
}

-- `double`, which the model knows nothing of.
pub record Doubles : Type 1 where
  pub Double : Type 0
  pub of_ℕ : ℕ → Double
  pub nano : Double
  pub add : Double → Double → Double
  pub sub : Double → Double → Double
  pub mul : Double → Double → Double
  pub div : Double → Double → Double
  pub pow : Double → Double → Double

-- `struct timespec` of a monotonic clock
pub record Instant : Type 0 where
  pub tv_sec : ℕ
  pub tv_nsec : ℕ

-- What one round gets: the bytes read, the clock before and after, and malloc's answer.
pub record Reading : Type 0 where
  pub frame : Bytes
  pub start : Instant
  pub end : Instant
  pub fresh : Ptr

module _ (D : Doubles) where
  open D use {Double, of_ℕ, nano, add, sub, mul, div, pow}

  -- What is printed on stdout. `%d` prints an unsigned counter as the `int` of its bit pattern.
  pub data Line : Type 0 where
    ready : Line
    type_line : (eth_type : ℕ) (frames bytes : ℤ) → Line
    own_line : ℤ → Line
    multicast_line : ℤ → Line
    rate_line : (mbit mib kb kibit : Double) → Line

  -- The local variables of `assignment2` that outlive a round.
  pub record Stats : Type 0 where
    pub my_frames : ℕ
    pub multicast_frames : ℕ
    pub info_list : Ptr
    pub total_byte : ℕ
    pub total_time : Double
    pub recbuffer : Bytes

  -- `(double)t.tv_sec + 1.0e-9 * t.tv_nsec`
  pub seconds : Instant → Double
  seconds t = add (of_ℕ t.tv_sec) (mul nano (of_ℕ t.tv_nsec))

  -- The buffer after a read: the frame over what stood there.
  pub fill : Bytes → Bytes → Bytes
  fill frame buffer = frame ++ drop (length frame) buffer

  -- `temp->frameCounter += 1; temp->byteCounter += ret;`
  pub add_frame : Ptr → ℕ → Cmd (Unit {0})
  add_frame temp ret = do
    n ← load temp
    store temp (record n { frame_counter = u32 (n.frame_counter + 1) })
    m ← load temp
    store temp (record m { byte_counter = u32 (m.byte_counter + ret) })

  -- `temp->frameCounter = 1; temp->byteCounter = ret;`
  pub first_frame : Ptr → ℕ → Cmd (Unit {0})
  first_frame temp ret = do
    n ← load temp
    store temp (record n { frame_counter = 1 })
    m ← load temp
    store temp (record m { byte_counter = u32 ret })

  -- The branch on `temp == NULL`: the list after one frame of the type.
  pub count_type : (fuel : ℕ) (fresh : Ptr) (e_type ret : ℕ) → Ptr → Cmd Ptr
  unfolding add_frame first_frame
  count_type fuel fresh e_type ret list = do
    temp ← get_info_by_type fuel e_type list
    if temp == null
        then (do new ← new_info fresh e_type; first_frame new ret; insert_info fuel new list)
        else (do add_frame temp ret; pure list)

  module _ (fuel : ℕ) (mymac : Bytes) where
    -- The rest of a round behind a read of `ret` bytes, `ret` not 0.
    pub handle : Reading → Stats → Cmd Stats
    unfolding count_type
    handle r s = do
      let ret = length r.frame
      let mac = get_mac s.recbuffer 0
      list ← count_type fuel r.fresh (u16 (get_type s.recbuffer)) ret s.info_list
      pure (record s {
        info_list = list;
        my_frames = if macs_equal mymac mac == 0 then s.my_frames else u32 (s.my_frames + 1);
        multicast_frames =
            if is_multicast (get_or mac 0 0) == 0
            then s.multicast_frames
            else u32 (s.multicast_frames + 1);
        total_byte = u32 (s.total_byte + ret);
      })

    -- `clock_gettime`, `grnvs_read`, `clock_gettime` and the sum of the time spent
    pub read_frame : Reading → Stats → Stats
    read_frame r s = record s {
      recbuffer = fill r.frame s.recbuffer;
      total_time = add s.total_time (sub (seconds r.end) (seconds r.start));
    }

    -- The receive loop at round `i` with `left` rounds to go; a read of 0 bytes ends it.
    pub receive : (reads : ℕ → Reading) (left i : ℕ) → Stats → Cmd Stats
    unfolding read_frame handle
    receive reads zero i s = pure s
    receive reads (suc left) i s =
        let s' = read_frame (reads i) s in
        let rest = handle (reads i) s' >>= receive reads left (i + 1) in
        if length (reads i).frame == 0 then pure s' else rest

    -- `while (infoList != NULL)`: the type lines, lowest type first. It runs on fuel too.
    pub summary : ℕ → Ptr → Cmd (List Line)
    summary zero list = λ _. out_of_fuel
    summary (suc rounds) list = if list == null then pure [] else do
      temp ← min fuel list
      n ← load temp
      let line = type_line n.eth_type (signed32 n.frame_counter) (signed32 n.byte_counter)
      list' ← remove_by_type fuel n.eth_type list
      rest ← summary rounds list'
      pure (line ∷ rest)

    -- The four rates of the last line.
    pub rates : ℕ → Double → Line
    rates total_byte total_time =
        let rate = div (of_ℕ total_byte) total_time in
        rate_line (div (mul rate (of_ℕ 8)) (pow (of_ℕ 10) (of_ℕ 6)))
          (div rate (pow (of_ℕ 2) (of_ℕ 20))) (div rate (of_ℕ 1000))
          (div (mul rate (of_ℕ 8)) (pow (of_ℕ 2) (of_ℕ 10)))

    pub start_stats : Bytes → Stats
    start_stats recbuffer = record {
      my_frames = 0;
      multicast_frames = 0;
      info_list = null;
      total_byte = 0;
      total_time = of_ℕ 0;
      recbuffer = recbuffer;
    }

    -- `assignment2`: the lines on stdout. `recbuffer` is what the buffer holds at first; a negative
    -- number of frames is no round.
    pub assignment2 : (reads : ℕ → Reading) (frames : ℤ) (recbuffer : Bytes) → Cmd (List Line)
    unfolding receive summary rates start_stats
    assignment2 reads frames recbuffer = do
      s ← receive reads (pos_part frames) 0 (start_stats recbuffer)
      lines ← summary fuel s.info_list
      pure (
          ready
          ∷ (lines
              ++ (own_line (signed32 s.my_frames)
                  ∷ multicast_line (signed32 s.multicast_frames)
                  ∷ rates s.total_byte s.total_time
                  ∷ [])))
