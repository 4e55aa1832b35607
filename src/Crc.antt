-- ===== src/Crc.antt =====
-- assignment2/libraw/src/crc.c: the CRC of a frame, which the kernel computes on a socket.
-- What the kernel answers is an input. `exit(-1)` of a failed call is an outcome.
pub mod Laws
mod Tests
use grnvs.Prelude.{
  ℕ, ◌+◌, ◌*◌, ◌/◌, ◌%◌, ◌^◌, Bool, Option, none, some, List, [], ◌∷◌, ◌++◌, if◌then◌else◌, length,
  drop, get_or,
}
use grnvs.Prelude.Int.{ℤ}
use grnvs.Memory.{Bytes}
use grnvs.Checksum.{Endian, little, big}
use grnvs.Raw.{Outcome, returned, exited, negative}

-- The descriptors of `socket` and `accept`, negative where they fail, the success of the other calls,
-- and what `recv` delivers for the frame that was sent.
pub record Kernel : Type 0 where
  pub socket : ℤ
  pub bind : Bool
  pub set_key : Bool
  pub accept : ℤ
  pub send : Bool
  pub recv : (frame : Bytes) → Option Bytes

-- `get_crc_sock`: the accepted descriptor, and the descriptors that were closed.
unfoldable pub get_crc_sock : Kernel → Outcome (ℤ × List ℤ)
get_crc_sock k =
    if negative k.socket
    then exited
    else if k.bind
    then (if k.set_key
        then (if negative k.accept then exited else returned (k.accept, k.socket ∷ []))
        else exited)
    else exited

-- The `uint32_t` of four bytes in memory
abbrev pub load32 : Endian → Bytes → ℕ
load32 little p =
    get_or p 0 0 + 2 ^ 8 * get_or p 1 0 + 2 ^ 16 * get_or p 2 0 + 2 ^ 24 * get_or p 3 0
load32 big p = 2 ^ 24 * get_or p 0 0 + 2 ^ 16 * get_or p 1 0 + 2 ^ 8 * get_or p 2 0 + get_or p 3 0

-- `get_crc32` behind `get_crc_sock`; `junk` are the four bytes that `ret` holds at first.
unfoldable pub feed :
    Endian
    → (junk : Bytes) → Kernel
    → (frame : Bytes) → (sock : ℤ) → (closed : List ℤ) → Outcome (ℕ × List ℤ)
feed e junk k frame sock closed =
    if k.send
    then elim (k.recv frame) [
      | none ↦ exited
      | some bytes ↦ returned (load32 e (bytes ++ drop (length bytes) junk), closed ++ sock ∷ [])
    ]
    else exited

-- `get_crc32`: the result and the descriptors that were closed
unfoldable pub get_crc32 : Endian → (junk : Bytes) → Kernel → (frame : Bytes) → Outcome (ℕ × List ℤ)
unfolding get_crc_sock feed
get_crc32 e junk k frame = elim (get_crc_sock k) [
  | returned opened ↦ feed e junk k frame (opened.0) (opened.1)
  | exited ↦ exited
  | Outcome.crash ↦ Outcome.crash
  | Outcome.out_of_answers ↦ Outcome.out_of_answers
]
