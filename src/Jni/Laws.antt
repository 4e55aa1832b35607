-- ===== src/Jni/Laws.antt =====
-- The native method of GRNVS_RAW.c that sends.
use grnvs.Prelude.{
  ℕ, ◌+◌, ◌≡◌, ◌<◌, ◌≤◌, refl, arith, Bool, true, false, Option, none, some, List, ◌++◌, leb,
  if◌then◌else◌, length, length-append, length-drop, length-take, drop, take, Bool-cases, inl, inr,
  ap, ◌∙◌, sym,
}
use grnvs.Prelude.Int.{ℤ, pos}
use grnvs.Memory.{Bytes}
use grnvs.Memory.Strings.{take-append, write_at-start, write_at-none}
use grnvs.Raw.{Statics, Outcome, crash, Answer, Route, grnvs_write}
use grnvs.Jni.{JniEnv, Result, after, copy_in, start_of, packet_sent, send_start, write}
use grnvs.Jni.Documented.{Documented}

-- `grnvs_write` of a packet at the start of a buffer, as the method reports it.
abbrev pub sent :
    List Answer
    → (buf : Bytes) → (packet : Option Bytes) → (pending : Bool) → Statics
    → Outcome (Result ℤ × Option (Route × Bytes))
sent answers buf packet pending s = after (grnvs_write answers buf s) (packet_sent packet pending)

module _ (env : JniEnv) (d : Documented env) (array : Bytes) (start len : ℕ) (buf : Bytes) where
  pub copy_in-inside :
      start + len ≤ length array
      → len ≤ length buf
      → copy_in env array (pos start) (pos len) buf
        ≡ some (take len (drop start array) ++ drop len buf, false)
  unfolding copy_in
  copy_in-inside h fits =
      let bytes = take len (drop start array) in
      let size : length bytes ≡ len =
        length-take len (drop start array) (omega (arith, length-drop start array, h)) in
      rw
        (
          copy_in,
          d.inside array start len h,
          write_at-start bytes buf (omega (arith, size, fits)),
          size,
        )
        refl

  copy_in-overflow :
      start + len ≤ length array
      → length buf < len
      → copy_in env array (pos start) (pos len) buf ≡ none
  unfolding copy_in
  copy_in-overflow h long =
      let bytes = take len (drop start array) in
      let size : length bytes ≡ len =
        length-take len (drop start array) (omega (arith, length-drop start array, h)) in
      rw
        (copy_in, d.inside array start len h, write_at-none 0 bytes buf (omega (arith, size, long)))
        refl

  copy_in-outside :
      length array < start + len → copy_in env array (pos start) (pos len) buf ≡ some (buf, true)
  unfolding copy_in
  copy_in-outside h = rw (d.outside array start len h, copy_in) refl

-- The bytes that a method hands on, once they are copied.
pub start_of-copied :
    (array buf : Bytes) (start len : ℕ)
    → start + len ≤ length array
    → len ≤ length buf
    → start_of (take len (drop start array) ++ drop len buf) (pos len)
      ≡ some (take len (drop start array))
start_of-copied array buf start len h fits =
    let bytes = take len (drop start array) in
    let size : length bytes ≡ len =
      length-take len (drop start array) (omega (arith, length-drop start array, h)) in
    let room : leb len (length (bytes ++ drop len buf)) ≡ true =
      ground (arith, length-append bytes (drop len buf), size) in
    let split : take len (bytes ++ drop len buf) ≡ bytes =
      ap (λ n. take n (bytes ++ drop len buf)) (sym size) ∙ take-append bytes (drop len buf) in
    rw (room, split) refl

-- What `write_` sends for a number of bytes: they must be in the Java array and fit into the local
-- array `buf` of 1514 bytes. Behind the Java array an exception is pending, but the bytes that `buf`
-- held are sent; behind `buf` it writes outside of it, or sends what is not in it.
abbrev pub expected_write :
    List Answer → (buf array : Bytes) → ℕ → Statics → Outcome (Result ℤ × Option (Route × Bytes))
expected_write answers buf array len s =
    if leb len (length array)
    then (if leb len (length buf)
        then sent answers (take len array ++ drop len buf) (some (take len array)) false s
        else crash)
    else sent answers buf (if leb len (length buf) then some (take len buf) else none) true s

module _ (env : JniEnv) (d : Documented env) (answers : List Answer) (buf array : Bytes) (len : ℕ)
    (s : Statics) where
  write-inside :
      len ≤ length array
      → len ≤ length buf
      → write env answers buf array (pos len) s
        ≡ sent answers (take len array ++ drop len buf) (some (take len array)) false s
  unfolding write
  write-inside h fits =
      rw (copy_in-inside env d array 0 len buf (omega (arith, h)) fits, write)
        (rw (start_of-copied array buf 0 len (omega (arith, h)) fits, send_start) refl)

  write-overflow :
      len ≤ length array → length buf < len → write env answers buf array (pos len) s ≡ crash
  unfolding write
  write-overflow h long =
      rw (copy_in-overflow env d array 0 len buf (omega (arith, h)) long, write) refl

  write-outside :
      length array < len
      → write env answers buf array (pos len) s
        ≡ sent answers buf (if leb len (length buf) then some (take len buf) else none) true s
  unfolding write send_start
  write-outside h = rw (copy_in-outside env d array 0 len buf (omega (arith, h)), write) refl

  -- Where the Java native interface copies array regions as documented, `write_` of a length that is
  -- not negative sends the start of the Java array if it is that long and the local array is, writes
  -- behind the local array if only the Java array is, and otherwise leaves an exception pending and
  -- sends what the local array held, up to that length; where neither is that long, what is sent reads
  -- behind the local array. The route is the one that `grnvs_write` takes for what is in the whole
  -- local array; where it sends nothing, nothing is sent, and where it ends the process, it is ended.
  pub write-expected :
      write env answers buf array (pos len) s ≡ expected_write answers buf array len s
  write-expected = elim (Bool-cases (leb len (length array))) [
    | inl inside ↦ elim (Bool-cases (leb len (length buf))) [
      | inl fits ↦ rw (inside, fits) (write-inside (ground arith) (ground arith))
      | inr long ↦ rw (inside, long) (write-overflow (ground arith) (ground arith))
    ]
    | inr outside ↦ rw outside (write-outside (ground arith))
  ]
