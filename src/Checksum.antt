-- ===== src/Checksum.antt =====
-- assignment2/libraw/src/checksum.c: the Internet checksum of an ICMPv6 packet (RFC 1071).
-- Memory is a list of bytes. The byte order of the machine is an argument, since the code adds
-- 16-bit words through a pointer cast. `long sum` is an unbounded number here: with at most 2^32
-- payload bytes it stays far below 2^63. The carry loop runs on fuel.
pub mod Sums
pub mod Fold
pub mod Order
pub mod Laws
pub mod Prefix
mod Tests
use grnvs.Prelude.{
  ℕ, zero, suc, ◌+◌, ◌-◌, ◌*◌, ◌/◌, ◌%◌, ◌^◌, Bool, true, false, Option, none, some, List, [], ◌∷◌,
  ◌++◌, ◌==◌, ltb, if◌then◌else◌, length, get_or, take, drop, replicate,
}

abbrev pub Bytes : Type 0
Bytes = List ℕ

-- The machine's byte order.
pub data Endian : Type 0 where
  little big : Endian

-- `*(uint16_t *)p` where `p` points to the bytes `lo`, `hi`
pub load16 : Endian → ℕ → ℕ → ℕ
load16 little lo hi = lo + 256 * hi
load16 big lo hi = 256 * lo + hi

-- The two bytes in memory of a `uint16_t`
pub store16 : Endian → ℕ → Bytes
store16 little w = w % 256 ∷ w / 256 ∷ []
store16 big w = w / 256 ∷ w % 256 ∷ []

-- The four bytes in memory of `(uint32_t)htonl(len)`: most significant first on either machine.
-- `len` is cut to 32 bits.
pub htonl_bytes : ℕ → Bytes
htonl_bytes len = len / 2 ^ 24 % 256 ∷ len / 2 ^ 16 % 256 ∷ len / 2 ^ 8 % 256 ∷ len % 256 ∷ []

-- `struct ip6_hdr`: the two addresses that the checksum reads, 16 bytes each.
pub record Ip6Hdr : Type 0 where
  pub ip6_src : Bytes
  pub ip6_dst : Bytes

-- `struct pseudo_hdr` as it lies in `buffer`: the addresses, `ulplen`, `padding1`, `padding2` and
-- `next_hdr`, which is 58.
pub pseudo_header : Ip6Hdr → ℕ → Bytes
pseudo_header hdr len = hdr.ip6_src ++ (hdr.ip6_dst ++ (htonl_bytes len ++ (0 ∷ 0 ∷ 0 ∷ 58 ∷ [])))

-- `for (offset = 0; offset < bound; offset += 2) sum += *(uint16_t *)(p + offset);`
-- on the bytes from `offset` on, with `left` bytes to the bound. A read past the bytes is 0 here,
-- and the callers stay inside.
pub sum_words : Endian → ℕ → Bytes → ℕ → ℕ
sum_words e zero p sum = sum
sum_words e (suc zero) p sum = sum + load16 e (get_or p 0 0) (get_or p 1 0)
sum_words e (suc (suc left)) p sum =
    sum_words e left (drop 2 p) (sum + load16 e (get_or p 0 0) (get_or p 1 0))

-- `while (sum >> 16) sum = (sum >> 16) + (sum & 0xffff);`
pub carry : ℕ → ℕ → Option ℕ
carry zero sum = none
carry (suc fuel) sum =
    let rest = carry fuel (sum / 2 ^ 16 + sum % 2 ^ 16) in
    if sum / 2 ^ 16 == 0 then some sum else rest

-- The sum before the carry loop: pseudo header, whole words of the payload (the bound is `len-1`
-- where `len > 0`), and the last byte of an uneven payload.
pub total : Endian → Ip6Hdr → Bytes → ℕ → ℕ
total e hdr payload len =
    let buffer = pseudo_header hdr len in
    let sum = sum_words e (length buffer) buffer 0 in
    let sum = sum_words e (len - 1) payload sum in
    if len % 2 == 0 then sum else sum + get_or payload (len - 1) 0

-- `return ~((uint16_t)sum);`
pub icmp6_checksum : Endian → ℕ → Ip6Hdr → Bytes → ℕ → Option ℕ
icmp6_checksum e fuel hdr payload len = elim (carry fuel (total e hdr payload len)) [
  | none ↦ none
  | some sum ↦ some (2 ^ 16 - 1 - sum % 2 ^ 16)
]
