-- ===== src/Jni.antt =====
-- assignment3/deps/GRNVS_RAW.c: the native methods of the Java class GRNVS_RAW, over raw.c, checksum.c
-- and hexdump.c. The functions of the Java native interface are parameters; the descriptor that
-- the methods take is only handed on. An exception that a call raises stays pending while the
-- native method goes on.
pub mod Documented
pub mod Laws
pub mod Sums
pub mod Reading
mod Tests
use grnvs.Prelude.{
  ℕ, zero, suc, ◌+◌, ◌-◌, ◌%◌, ◌^◌, ◌≡◌, Bool, true, false, not, ◌&&◌, ◌||◌, Option, none, some,
  List, [], ◌∷◌, ◌++◌, ◌==◌, ltb, leb, if◌then◌else◌, length, drop, take,
}
use grnvs.Prelude.Int.{ℤ, pos, negsuc, pos_part, neg_part, sub_ℕ}
use grnvs.Memory.{Bytes, zeros, write_at}
use grnvs.Args.{to_int}
use grnvs.Raw.{
  Statics, Outcome, returned, exited, crash, out_of_answers, Answers, Answer, Layer, sock_raw,
  sock_dgram, other_layer, Route, Round, negative, grnvs_open, grnvs_read, grnvs_write, grnvs_close,
  grnvs_get_hwaddr, grnvs_get_ipaddr, grnvs_get_ip6addr,
}
use grnvs.Hexdump.{hexdump2}
use grnvs.Checksum.{Endian, store16, Ip6Hdr, icmp6_checksum}

-- What the native methods call: the bytes that `GetByteArrayRegion` copies and the array that
-- `SetByteArrayRegion` leaves, where `none` is a pending exception, and `NewByteArray`, where
-- `none` is NULL. `CallObjectMethod` is documented for methods that return objects; here it calls
-- one that returns an int, and one that returns nothing. What comes of that is open: `get_timeout` is
-- the int that its result is cast to, and `set_timeout` the timer's value behind the call.
pub record JniEnv : Type 0 where
  pub get_region : (array : Bytes) → (start len : ℤ) → Option Bytes
  pub set_region : (array : Bytes) → (start len : ℤ) → (buf : Bytes) → Option Bytes
  pub new_array : ℕ → Option Bytes
  pub get_timeout : (timer : ℤ) → ℤ
  pub set_timeout : (timer timeout : ℤ) → ℤ

-- What a native method gives back to Java.
pub record Result (A : Type 0) : Type 0 where
  pub value : A
  pub pending : Bool

abbrev pub after : {A B : Type 0} → Outcome A → (A → Outcome B) → Outcome B
after (returned a) next = next a
after exited next = exited
after crash next = crash
after out_of_answers next = out_of_answers

-- The constants of the Java class
abbrev pub layer_of : ℤ → Layer
layer_of (pos n) = if n == 3 then sock_raw else if n == 2 then sock_dgram else other_layer
layer_of (negsuc n) = other_layer

-- `getSocket`
unfoldable pub get_socket :
    (device : Bytes) → (level : ℤ) → Answers → Statics → Outcome (Result ℤ × Statics)
unfolding grnvs_open
get_socket device level answers s =
    after (grnvs_open device (layer_of level) answers s)
      (λ opened. returned (record { value = opened.0; pending = negative opened.0 }, opened.1))

-- `GetByteArrayRegion` into a local array `buf`, and whether an exception is pending; `none` is a
-- write behind the array.
unfoldable pub copy_in :
    JniEnv → (array : Bytes) → (start len : ℤ) → (buf : Bytes) → Option (Bytes × Bool)
copy_in env array start len buf = elim (env.get_region array start len) [
  | none ↦ some (buf, true)
  | some bytes ↦ elim (write_at 0 bytes buf) [ none ↦ none | some buf ↦ some (buf, false) ]
]

-- The first `len` bytes of a local array; as a `size_t` a negative number is behind every array.
abbrev pub start_of : Bytes → (len : ℤ) → Option Bytes
start_of buf (pos n) = if leb n (length buf) then some (take n buf) else none
start_of buf (negsuc n) = none

-- What a call of `grnvs_write` sends of the memory at `buf`: nothing, or a packet on a route. Where
-- that memory does not have the packet, sending it reads behind the memory.
abbrev pub packet_sent :
    (packet : Option Bytes)
    → (pending : Bool) → ℤ × Option Route
    → Outcome (Result ℤ × Option (Route × Bytes))
packet_sent packet pending (value, none) =
    returned (record { value = value; pending = pending }, none)
packet_sent none pending (value, some route) = crash
packet_sent (some bytes) pending (value, some route) =
    returned (record { value = value; pending = pending }, some (route, bytes))

-- `grnvs_write(fd, buf, length)`: it reads the addresses in `buf` whatever the length is.
unfoldable pub send_start :
    List Answer
    → (buf : Bytes) → (len : ℤ) → Bool
    → Statics
    → Outcome (Result ℤ × Option (Route × Bytes))
unfolding grnvs_write
send_start answers buf len pending s =
    after (grnvs_write answers buf s) (packet_sent (start_of buf len) pending)

-- `write_`; `buf` is what the local array holds at first.
unfoldable pub write :
    JniEnv
    → List Answer
    → (buf buffer : Bytes) → (len : ℤ) → Statics
    → Outcome (Result ℤ × Option (Route × Bytes))
unfolding copy_in send_start
write env answers buf buffer len s = elim (copy_in env buffer (pos 0) len buf) [
  | none ↦ crash
  | some copied ↦ send_start answers (copied.0) len (copied.1) s
]

-- `hexdump_`: the text in the static buffer of hexdump.c; a negative length is no byte.
unfoldable pub hexdump :
    JniEnv → (buf buffer : Bytes) → (len : ℤ) → (str : Bytes) → Outcome (Result Bytes)
unfolding copy_in hexdump2
hexdump env buf buffer len str = elim (copy_in env buffer (pos 0) len buf) [
  | none ↦ crash
  | some copied ↦
      if ltb (length buf) (pos_part len)
      then crash
      else elim (hexdump2 (copied.0) (pos_part len) str) [
        | none ↦ crash
        | some text ↦ returned (record { value = text; pending = copied.1 })
      ]
]

-- The result of `read_`: the number of bytes, the Java array and the timer's new value.
pub record ReadResult : Type 0 where
  pub len : ℤ
  pub buffer : Bytes
  pub timeout : Option ℤ

-- `SetByteArrayRegion` behind `grnvs_read`: the local array holds the bytes read, zeros behind.
unfoldable pub copy_out :
    JniEnv → (frame buffer : Bytes) → (len : ℤ) → (timeout : Option ℤ) → Outcome (Result ReadResult)
copy_out env frame buffer len timeout = elim (write_at 0 (take (pos_part len) frame) (zeros 1514)) [
  | none ↦ crash
  | some buf ↦ elim (env.set_region buffer (pos 0) len buf) [
    | none ↦ returned (record {
      value = record { len = len; buffer = buffer; timeout = timeout };
      pending = true;
    })
    | some buffer ↦ returned (record {
      value = record { len = len; buffer = buffer; timeout = timeout };
      pending = false;
    })
  ]
]

-- `unsigned int` of an int, and back
abbrev pub unsigned_of : ℤ → ℕ
unsigned_of n = (pos_part n + (2 ^ 32 - neg_part n % 2 ^ 32)) % 2 ^ 32

-- The timer's value behind `read_`, from what `grnvs_read` leaves of the timeout
abbrev pub timer_value : JniEnv → (timer : ℤ) → Option ℕ → Option ℤ
timer_value env timer none = none
timer_value env timer (some n) = some (env.set_timeout timer (to_int (pos n)))

-- `min(sizeof(buf), …)` of the local array and the Java array
abbrev pub room : (buffer : Bytes) → ℕ
room buffer = if ltb 1514 (length buffer) then 1514 else length buffer

-- `read_`: `time` is the timer's value, if there is a timer; `methods` tells whether its methods are
-- found. `rounds` and `frame` are what the kernel gives, at most as many bytes as there is room;
-- `junk` is what `len` of `grnvs_read` holds at first.
unfoldable pub read :
    JniEnv
    → (methods : Bool) → List Round
    → (junk : ℤ) → (frame buffer : Bytes) → (time : Option ℤ) → Statics
    → Outcome (Result ReadResult)
unfolding grnvs_read copy_out to_int
read env methods rounds junk frame buffer none s =
    after (grnvs_read rounds junk none s)
      (λ got. copy_out env (take (room buffer) frame) buffer (got.0) none)
read env methods rounds junk frame buffer (some timer) s =
    if methods
    then after (grnvs_read rounds junk (some (unsigned_of (env.get_timeout timer))) s) (λ got.
      copy_out env (take (room buffer) frame) buffer (got.0) (timer_value env timer (got.1)))
    else returned (record {
      value = record { len = negsuc 0; buffer = buffer; timeout = some timer };
      pending = true;
    })

-- `close_`
unfoldable pub close : Statics → Statics
unfolding grnvs_close
close s = grnvs_close s

-- A new Java array of the `n` bytes at an address; writing to NULL or reading from it is an access
-- outside. `before` tells whether an exception is pending already.
unfoldable pub array_of :
    JniEnv → (before : Bool) → (n : ℕ) → (bytes : Option Bytes) → Outcome (Option (Result Bytes))
array_of env before n bytes = elim (env.new_array n) [
  | none ↦ crash
  | some result ↦ elim bytes [
    | none ↦ crash
    | some buf ↦ elim (env.set_region result (pos 0) (pos n) buf) [
      | none ↦ returned (some (record { value = result; pending = true }))
      | some result ↦ returned (some (record { value = result; pending = before }))
    ]
  ]
]

-- `mac_`; `none` is the Java null.
unfoldable pub mac : JniEnv → Statics → Outcome (Option (Result Bytes))
unfolding array_of grnvs_get_hwaddr
mac env s = elim (grnvs_get_hwaddr s) [
  | none ↦ returned none
  | some bytes ↦ array_of env false 6 (some bytes)
]

-- `ip_`
unfoldable pub ip : JniEnv → Statics → Outcome (Option (Result Bytes))
unfolding array_of grnvs_get_ipaddr
ip env s = array_of env false 4 (some (grnvs_get_ipaddr s))

-- `ip6_`: the address is not tested.
unfoldable pub ip6 : JniEnv → Statics → Outcome (Option (Result Bytes))
unfolding array_of grnvs_get_ip6addr
ip6 env s = array_of env false 16 (grnvs_get_ip6addr s)

-- The addresses in the 40 bytes of a header
abbrev pub header_of : Bytes → Ip6Hdr
header_of bytes = record { ip6_src = take 16 (drop 8 bytes); ip6_dst = take 16 (drop 24 bytes) }

-- `checksum_`: `hdrbuffer` has 40 bytes and `payloadbuffer` 2048.
unfoldable pub checksum :
    JniEnv
    → Endian
    → (fuel : ℕ) → (hdrbuffer payloadbuffer hdr : Bytes) → (hdr_offset : ℤ) → (payload : Bytes)
    → (payload_offset payload_length : ℤ) → Outcome (Option (Result Bytes))
unfolding copy_in array_of
checksum env e fuel hdrbuffer payloadbuffer hdr hdr_offset payload payload_offset payload_length =
    elim (copy_in env hdr hdr_offset (pos 40) hdrbuffer) [
      | none ↦ crash
      | some header ↦ elim (copy_in env payload payload_offset payload_length payloadbuffer) [
        | none ↦ crash
        | some copied ↦ elim (start_of (copied.0) payload_length) [
          | none ↦ crash
          | some _ ↦
              elim (icmp6_checksum e fuel (header_of (header.0)) (copied.0)
                (pos_part payload_length)) [
                  | none ↦ out_of_answers
                  | some cksum ↦ array_of env (header.1 || copied.1) 2 (some (store16 e cksum))
                ]
        ]
      ]
    ]
