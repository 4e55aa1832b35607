-- ===== src/EthFrame.antt =====
-- assignment2/src/assignment2.c, lines 107 to 135: the fields of an Ethernet frame in a byte buffer.
pub mod Laws
mod Tests
use Prim.Native.Nat.{bit_and}
use grnvs.Prelude.{
  ℕ, zero, suc, ◌+◌, ◌-◌, ◌*◌, ◌^◌, ◌≡◌, Bool, true, false, List, [], ◌∷◌, ◌==◌, if◌then◌else◌,
  get_or, take, drop,
}

abbrev pub Bytes : Type 0
Bytes = List ℕ

-- ETH_ALEN
abbrev pub eth_alen : ℕ
eth_alen = 6

-- `isMulticast`
unfoldable pub is_multicast : ℕ → ℕ
is_multicast mac_first = if bit_and mac_first 0x1 == 0 then 0 else 1

-- `getMac`: what it copies to `dest`
unfoldable pub get_mac : Bytes → ℕ → Bytes
get_mac src offset = take eth_alen (drop offset src)

-- The loop of `macsEqual` at index `i`, with `left` rounds to go
unfoldable pub macs_loop : ℕ → ℕ → Bytes → Bytes → ℕ
macs_loop zero i x y = 1
macs_loop (suc left) i x y =
    let rest = macs_loop left (i + 1) x y in if get_or x i 0 == get_or y i 0 then rest else 0

-- `macsEqual`
unfoldable pub macs_equal : Bytes → Bytes → ℕ
unfolding macs_loop
macs_equal x y = macs_loop eth_alen 0 x y

-- `getType`: two bytes behind the two addresses, the first one shifted left by 8
unfoldable pub get_type : Bytes → ℕ
get_type buf =
    let type = take 2 (drop (2 * eth_alen) buf) in get_or type 0 0 * 2 ^ 8 + get_or type 1 0
