-- ===== src/Raw.antt =====
-- assignment2/libraw/src/raw.c: the raw socket wrapper, over the file's static variables.
-- What the kernel answers to each call is an input. The end of the process by `exit(-1)` and an
-- access that C leaves undefined are outcomes.
pub mod Laws
pub mod Addresses
pub mod Writing
mod Tests
use grnvs.Prelude.{
  ℕ, zero, suc, ◌+◌, ◌-◌, ◌*◌, ◌/◌, ◌%◌, ◌≡◌, Bool, true, false, not, ◌&&◌, ◌||◌, Option, none,
  some, List, [], ◌∷◌, ◌++◌, ◌==◌, ltb, leb, if◌then◌else◌, length, drop, take, replicate, get_or,
}
use grnvs.Prelude.Int.{ℤ, pos, negsuc, ltb_ℤ}
use grnvs.Memory.{Bytes, str_equal}
use grnvs.Timespec.{Timespec, timespecsub, timespecmset, milliseconds}

-- The static variables
pub record Statics : Type 0 where
  pub ifindex : ℤ
  pub write_six : ℤ
  pub write_four : ℤ
  pub mac : Bytes
  pub ip : Bytes
  pub ip6 : Bytes

pub data Outcome (A : Type 0) : Type 0 where
  returned : A → Outcome A
  exited : Outcome A
  crash : Outcome A
  out_of_answers : Outcome A

-- `x < 0`
abbrev pub negative : ℤ → Bool
negative (pos n) = false
negative (negsuc n) = true

-- `write_six > 0`
abbrev pub positive : ℤ → Bool
positive (pos n) = not (n == 0)
positive (negsuc n) = false

-- `is_global`
unfoldable pub is_global : Bytes → Bool
is_global addr = not (get_or addr 0 0 == 0xfe && get_or addr 1 0 == 0x80)

-- One entry of `getifaddrs`
pub data Address : Type 0 where
  no_address other_family : Address
  inet inet6 : Bytes → Address

pub record IfAddr : Type 0 where
  pub ifa_name : Bytes
  pub ifa_addr : Address

-- The two kinds of socket; any other number is refused.
pub data Layer : Type 0 where
  sock_dgram sock_raw other_layer : Layer

abbrev pub is_dgram : Layer → Bool
is_dgram sock_dgram = true
is_dgram sock_raw = false
is_dgram other_layer = false

-- What one entry does to `ip` and `ip6`.
unfoldable pub take_address : (ifname : Bytes) → Layer → IfAddr → Statics → Statics
take_address ifname layer ifc s =
    if str_equal ifc.ifa_name ifname
    then elim ifc.ifa_addr [
      | no_address ↦ s
      | other_family ↦ s
      | inet a ↦ record s { ip = a }
      | inet6 a ↦ if is_dgram layer && not (is_global a) then s else record s { ip6 = a }
    ]
    else s

-- `grnvs_get_addresses` behind `getifaddrs`
unfoldable pub get_addresses : (ifname : Bytes) → Layer → List IfAddr → Statics → Statics
unfolding take_address
get_addresses ifname layer [] s = s
get_addresses ifname layer (ifc ∷ rest) s =
    get_addresses ifname layer rest (take_address ifname layer ifc s)

-- What the kernel answers in `grnvs_open`: descriptors or negative numbers, the interface's index and
-- hardware address, its addresses, and whether `bind` succeeds.
pub record Answers : Type 0 where
  pub six : ℤ
  pub four : ℤ
  pub packet : ℤ
  pub index : Option ℤ
  pub hardware : Option Bytes
  pub addresses : Option (List IfAddr)
  pub bound : Bool

-- The two `socket` calls for a layer 3 socket; `none` is the end of the process.
unfoldable pub open_writers : Layer → Answers → Statics → Option Statics
open_writers layer a s =
    if is_dgram layer
    then (if negative a.six || negative a.four
        then none
        else some (record s { write_six = a.six; write_four = a.four }))
    else some s

abbrev is_other : Layer → Bool
is_other sock_dgram = false
is_other sock_raw = false
is_other other_layer = true

-- The two `ioctl` calls and `grnvs_get_addresses`; `none` is the end of the process.
unfoldable pub open_interface :
    (ifname : Bytes)
    → Layer
    → (index : Option ℤ) → (hardware : Option Bytes) → (addresses : Option (List IfAddr)) → Statics
    → Option Statics
unfolding get_addresses
open_interface ifname layer (some index) (some hardware) (some addresses) s =
    some
      (get_addresses ifname layer addresses (record s { ifindex = index; mac = take 6 hardware }))
open_interface ifname layer (some index) (some hardware) none s = none
open_interface ifname layer (some index) none addresses s = none
open_interface ifname layer none hardware addresses s = none

-- `grnvs_open`: the descriptor and the new statics. `ifr_name` has 16 bytes.
unfoldable pub grnvs_open : (ifname : Bytes) → Layer → Answers → Statics → Outcome (ℤ × Statics)
unfolding open_writers open_interface
grnvs_open ifname layer a s =
    if is_other layer
    then exited
    else elim (open_writers layer a (record s { ip6 = replicate 16 0 })) [
      | none ↦ exited
      | some s ↦
          if negative a.packet
          then exited
          else if leb 16 (length ifname)
          then crash
          else elim (open_interface ifname layer a.index a.hardware a.addresses s) [
            | none ↦ exited
            | some s ↦ if a.bound then returned (a.packet, s) else exited
          ]
    ]

-- What a call that may be interrupted gives: an error EINTR, another error, or a number.
pub data Answer : Type 0 where
  interrupted failed : Answer
  count : ℕ → Answer

-- One round of the loop of `grnvs_read`: the clock before and after, `pselect` and `read`.
pub record Round : Type 0 where
  pub before : Timespec
  pub after : Timespec
  pub pselect : Answer
  pub read : Answer

-- The loop of `grnvs_read`. `len` is what the variable holds, which nothing sets before the first
-- `read`; a `continue` goes to the loop's condition, with EINTR in `errno`.
unfoldable pub read_loop :
    List Round → (time : Timespec) → (timeout : Option ℕ) → (len : ℤ) → Outcome (ℤ × Option ℕ)
read_loop [] time timeout len = out_of_answers
read_loop (r ∷ rounds) time none len = elim r.pselect [
  | interrupted ↦ if negative len then read_loop rounds time none len else returned (len, none)
  | failed ↦ exited
  | count ready ↦ if ready == 0 then crash else elim r.read [
    | interrupted ↦ read_loop rounds time none (negsuc 0)
    | failed ↦ exited
    | count len ↦ returned (pos len, none)
  ]
]
read_loop (r ∷ rounds) time (some timeout) len =
    let time = timespecsub time (timespecsub r.after r.before) in
    let timeout = some (milliseconds time) in
    elim r.pselect [
      | interrupted ↦
          if negative len then read_loop rounds time timeout len else returned (len, timeout)
      | failed ↦ exited
      | count ready ↦ if ready == 0 then returned (pos 0, some 0) else elim r.read [
        | interrupted ↦ read_loop rounds time timeout (negsuc 0)
        | failed ↦ exited
        | count len ↦ returned (pos len, timeout)
      ]
    ]

-- `grnvs_read`: the result and `*timeout`; `none` is a NULL pointer. `junk` is what `len` holds at
-- first.
unfoldable pub grnvs_read :
    List Round → (junk : ℤ) → (timeout : Option ℕ) → Statics → Outcome (ℤ × Option ℕ)
unfolding read_loop
grnvs_read rounds junk none s =
    if negative s.ifindex
    then exited
    else read_loop rounds (record { tv_sec = pos 0; tv_nsec = pos 0 }) none junk
grnvs_read rounds junk (some timeout) s =
    if negative s.ifindex
    then exited
    else if timeout == 0
    then returned (pos 0, some 0)
    else read_loop rounds (timespecmset timeout) (some timeout) junk

-- Where `grnvs_write` sends a packet.
pub data Route : Type 0 where
  to_six : (sin6_addr : Bytes) → Route
  to_four to_packet : Route

-- The do-while loop of `grnvs_write` around one send
unfoldable pub send_loop : List Answer → Route → Outcome (ℤ × Option Route)
send_loop [] route = out_of_answers
send_loop (answer ∷ answers) route = elim answer [
  | interrupted ↦ send_loop answers route
  | failed ↦ exited
  | count len ↦ returned (pos len, some route)
]

-- `grnvs_write`: the result, and where the packet went; -22 is -EINVAL. `buf` is the memory at the
-- pointer, up to the end of its object: the address is read from it whatever the packet's length is.
unfoldable pub grnvs_write : List Answer → (buf : Bytes) → Statics → Outcome (ℤ × Option Route)
unfolding send_loop
grnvs_write answers buf s =
    if positive s.write_six && ltb (length buf) 40
    then crash
    else if negative s.ifindex
    then exited
    else if positive s.write_six
    then (if get_or buf 0 0 / 16 == 6
        then send_loop answers (to_six (take 16 (drop 24 buf)))
        else if get_or buf 0 0 / 16 == 4
        then send_loop answers to_four
        else returned (negsuc 21, none))
    else send_loop answers to_packet

-- `grnvs_close`; its result is that of `close`.
unfoldable pub grnvs_close : Statics → Statics
grnvs_close s = record s {
  ifindex = negsuc 0;
  mac = replicate 6 0;
  ip6 = replicate 16 0;
  ip = replicate 4 0;
}

-- `grnvs_get_hwaddr`, `none` is NULL.
unfoldable pub grnvs_get_hwaddr : Statics → Option Bytes
grnvs_get_hwaddr s = if negative s.ifindex then none else some s.mac

-- `grnvs_get_ipaddr`
unfoldable pub grnvs_get_ipaddr : Statics → Bytes
grnvs_get_ipaddr s = s.ip

-- `grnvs_get_ip6addr`
unfoldable pub grnvs_get_ip6addr : Statics → Option Bytes
grnvs_get_ip6addr s = if negative s.ifindex then none else some s.ip6
