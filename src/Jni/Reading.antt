-- ===== src/Jni/Reading.antt =====
-- The native method of GRNVS_RAW.c that receives, with a timer.
use grnvs.Prelude.{
  ℕ, zero, suc, [], ◌+◌, ◌-◌, ◌*◌, ◌/◌, ◌%◌, ◌^◌, ◌<◌, ◌≤◌, ◌≡◌, refl, arith, true, false, some,
  List, ◌∷◌, ◌++◌, length, length-append, drop, take,
}
use grnvs.Prelude.Int.{ℤ, pos}
use grnvs.Memory.{Bytes, zeros, write_at}
use grnvs.Memory.Strings.{length-zeros, write_at-start, take-append, take_all}
use grnvs.Args.{to_int}
use grnvs.Args.Strtol.{to_int-same}
use grnvs.Raw.{Statics, returned, count, Round, negative}
use grnvs.Raw.Laws.{Clocked, round, spent_in, interrupted_rounds, grnvs_read-timeout}
use grnvs.Jni.{JniEnv, Result, ReadResult, copy_out, room, read}
use grnvs.Jni.Documented.{Documented}

-- What Java has behind a call: the number of bytes, the array with the frame at its start, and the
-- timer's value.
abbrev pub received : (frame buffer : Bytes) → (timer : ℤ) → Result ReadResult
received frame buffer timer = record {
  value = record {
    len = pos (length frame);
    buffer = frame ++ drop (length frame) buffer;
    timeout = some timer;
  };
  pending = false;
}

length-take_room : (n : ℕ) (s : Bytes) → length (take n s) ≤ n
length-take_room zero s = omega arith
length-take_room (suc n) [] = omega arith
length-take_room (suc n) (b ∷ s) = omega (arith, length-take_room n s)

room-1514 : (buffer : Bytes) → (room buffer ≤ 1514) × (room buffer ≤ length buffer)
room-1514 buffer = (ground arith, ground arith)

module _ (env : JniEnv) (d : Documented env) where
  copy_out-received :
      (frame buffer : Bytes) (timer : ℤ)
      → length frame ≤ room buffer
      → copy_out env frame buffer (pos (length frame)) (some timer)
        ≡ returned (received frame buffer timer)
  unfolding copy_out
  copy_out-received frame buffer timer h =
      let (small, inside) = room-1514 buffer in
      let all : take (length frame) frame ≡ frame = take_all (length frame) frame (omega arith) in
      let buf = frame ++ drop (length frame) (zeros 1514) in
      let copied : write_at 0 frame (zeros 1514) ≡ some buf =
        write_at-start frame (zeros 1514) (omega (arith, h, small, length-zeros 1514)) in
      rw
        (
          all,
          copied,
          d.stored buffer buf (length frame) (omega (arith, h, inside))
              (omega (arith, length-append frame (drop (length frame) (zeros 1514)))),
          take-append frame (drop (length frame) (zeros 1514)),
          copy_out,
        )
        refl

  -- However often the call is interrupted while it reads, `read_` of a frame with a timer gives Java
  -- the frame, cut to the 1514 bytes of the local array and to the Java array: its number of bytes,
  -- and the bytes at the start of the array, whose rest is kept. The timeout is what the call for the
  -- timer's value gives, a positive int, and the timer's setter is called with the milliseconds that
  -- are left; what these two calls do is open. The interface is open, the functions on array regions
  -- do as documented, the methods of the timer are found, and the time spent, in nanoseconds, is at
  -- most the timeout.
  pub read-received :
      (timer : ℤ) (timeout : ℕ) (junk : ℤ) (frame buffer : Bytes) (s : Statics) (last : ℕ × ℕ)
      (cs : Clocked) (rest : List Round)
      → env.get_timeout timer ≡ pos timeout
      → negative s.ifindex ≡ false
      → 0 < timeout
      → timeout < 2 ^ 31
      → spent_in cs + last.1 ≤ timeout * 1000000
      → read env true
          (interrupted_rounds cs (round (count (length (take (room buffer) frame))) last ∷ rest))
          junk
          frame
          buffer
          (some timer)
          s
        ≡ returned (
            received (take (room buffer) frame) buffer (
              env.set_timeout timer (pos ((timeout * 1000000 - (spent_in cs + last.1)) / 1000000))))
  unfolding read
  read-received timer timeout junk frame buffer s last cs rest given up more small fits =
      let n = length (take (room buffer) frame) in
      let left = (timeout * 1000000 - (spent_in cs + last.1)) / 1000000 in
      let same : (timeout + 2 ^ 32) % 2 ^ 32 ≡ timeout = omega arith in
      let got = grnvs_read-timeout timeout n junk s last cs rest up more (omega arith) fits in
      let int : to_int (pos left) ≡ pos left = to_int-same (pos left) (omega arith, omega arith) in
      rw (given, same, got, int)
        (copy_out-received (take (room buffer) frame) buffer (env.set_timeout timer (pos left))
          (length-take_room (room buffer) frame))
