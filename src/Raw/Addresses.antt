-- ===== src/Raw/Addresses.antt =====
-- grnvs_open of raw.c: what it leaves in the static variables where every call succeeds.
use grnvs.Prelude.{
  ◌<◌, ◌≡◌, refl, arith, true, false, not, ◌&&◌, some, List, [], ◌∷◌, leb, length, take, replicate,
  if◌then◌else◌, Bool-cases, inl, inr, ◌∙◌,
}
use grnvs.Prelude.Int.{ℤ}
use grnvs.Memory.{Bytes, str_equal}
use grnvs.Raw.{
  Statics, returned, negative, is_global, Address, no_address, other_family, inet, inet6, IfAddr,
  Layer, sock_dgram, sock_raw, other_layer, is_dgram, take_address, get_addresses, Answers,
  open_writers, open_interface, grnvs_open,
}

-- The addresses that are listed for the interface, in order.
abbrev pub listed : (ifname : Bytes) → List IfAddr → List Address
listed ifname [] = []
listed ifname (ifc ∷ ifs) =
    let rest = listed ifname ifs in
    if str_equal ifc.ifa_name ifname then ifc.ifa_addr ∷ rest else rest

abbrev pub inets : List Address → List Bytes
inets [] = []
inets (no_address ∷ more) = inets more
inets (other_family ∷ more) = inets more
inets (inet a ∷ more) = a ∷ inets more
inets (inet6 a ∷ more) = inets more

abbrev pub inet6s : List Address → List Bytes
inet6s [] = []
inet6s (no_address ∷ more) = inet6s more
inet6s (other_family ∷ more) = inet6s more
inet6s (inet a ∷ more) = inet6s more
inet6s (inet6 a ∷ more) = a ∷ inet6s more

-- A layer 3 socket has no use for link-local addresses.
abbrev pub usable : Layer → List Bytes → List Bytes
usable layer [] = []
usable layer (a ∷ more) =
    let rest = usable layer more in if is_dgram layer && not (is_global a) then rest else a ∷ rest

-- The last of a list, or a default.
abbrev pub last_or : Bytes → List Bytes → Bytes
last_or default [] = default
last_or default (a ∷ more) = last_or a more

-- `ip` and `ip6` afterwards
abbrev pub addressed : (ifname : Bytes) → Layer → List IfAddr → Statics → Statics
addressed ifname layer ifs s = record s {
  ip = last_or s.ip (inets (listed ifname ifs));
  ip6 = last_or s.ip6 (usable layer (inet6s (listed ifname ifs)));
}

-- The same for one entry.
named-addressed :
    (ifname : Bytes) (layer : Layer) (ifs : List IfAddr) (s : Statics) (name : Bytes)
    (address : Address)
    → str_equal name ifname ≡ true
    → addressed ifname layer ifs
        (take_address ifname layer (record { ifa_name = name; ifa_addr = address }) s)
      ≡ addressed ifname layer (record { ifa_name = name; ifa_addr = address } ∷ ifs) s
unfolding take_address
named-addressed ifname layer ifs s name no_address named = rw named refl
named-addressed ifname layer ifs s name other_family named = rw named refl
named-addressed ifname layer ifs s name (inet a) named = rw named refl
named-addressed ifname layer ifs s name (inet6 a) named =
    elim (Bool-cases (is_dgram layer && not (is_global a))) [
      | inl local ↦ rw (named, local) refl
      | inr global ↦ rw (named, global) refl
    ]

take_address-addressed :
    (ifname : Bytes) (layer : Layer) (ifs : List IfAddr) (s : Statics) (ifc : IfAddr)
    → addressed ifname layer ifs (take_address ifname layer ifc s)
      ≡ addressed ifname layer (ifc ∷ ifs) s
unfolding take_address
take_address-addressed ifname layer ifs s ifc = elim (Bool-cases (str_equal ifc.ifa_name ifname)) [
  | inl named ↦ named-addressed ifname layer ifs s ifc.ifa_name ifc.ifa_addr named
  | inr other ↦ rw other refl
]

get_addresses-addressed :
    (ifname : Bytes) (layer : Layer) (ifs : List IfAddr) (s : Statics)
    → get_addresses ifname layer ifs s ≡ addressed ifname layer ifs s
unfolding get_addresses
get_addresses-addressed ifname layer [] s = refl
get_addresses-addressed ifname layer (ifc ∷ ifs) s =
    get_addresses-addressed ifname layer ifs (take_address ifname layer ifc s)
    ∙ take_address-addressed ifname layer ifs s ifc

-- The statics behind a `grnvs_open` where every call succeeds.
abbrev pub opened :
    (ifname : Bytes)
    → Layer
    → Answers
    → (index : ℤ) → (hardware : Bytes) → List IfAddr
    → Statics
    → Statics
opened ifname layer a index hardware ifs s = record {
  ifindex = index;
  write_six = if is_dgram layer then a.six else s.write_six;
  write_four = if is_dgram layer then a.four else s.write_four;
  mac = take 6 hardware;
  ip = last_or s.ip (inets (listed ifname ifs));
  ip6 = last_or (replicate 16 0) (usable layer (inet6s (listed ifname ifs)));
}

-- The sockets of a layer are given.
abbrev pub SocketsGiven : Layer → Answers → Type 0
SocketsGiven sock_dgram a =
    (negative a.six ≡ false) × (negative a.four ≡ false) × (negative a.packet ≡ false)
SocketsGiven sock_raw a = negative a.packet ≡ false
SocketsGiven other_layer a = ⊥

-- Where every call succeeds and the name has at most 15 bytes, `grnvs_open` of a layer 2 or layer 3
-- socket returns the packet socket and leaves: the interface's index, the two sockets for writing of a
-- layer 3 socket, the first six bytes of the hardware address, the last IPv4 address that is listed for the
-- interface, or the old one, and its last IPv6 address, or zeros; for layer 3 its link-local addresses
-- do not count.
pub grnvs_open-opened :
    (ifname : Bytes) (layer : Layer) (a : Answers) (index : ℤ) (hardware : Bytes)
    (ifs : List IfAddr) (s : Statics)
    → length ifname < 16
    → SocketsGiven layer a
    → a.index ≡ some index
    → a.hardware ≡ some hardware
    → a.addresses ≡ some ifs
    → a.bound ≡ true
    → grnvs_open ifname layer a s ≡ returned (a.packet, opened ifname layer a index hardware ifs s)
unfolding grnvs_open open_writers open_interface
grnvs_open-opened ifname sock_dgram a index hardware ifs s short (six, four, packet) e e' e''
      bound =
    let fits : leb 16 (length ifname) ≡ false = ground arith in
    let s₁ : Statics = record s {
      ifindex = index;
      write_six = a.six;
      write_four = a.four;
      mac = take 6 hardware;
      ip6 = replicate 16 0;
    } in
    rw (six, four, packet, fits, e, e', e'', bound)
      (λ i. returned (a.packet, get_addresses-addressed ifname sock_dgram ifs s₁ i))
grnvs_open-opened ifname sock_raw a index hardware ifs s short packet e e' e'' bound =
    let fits : leb 16 (length ifname) ≡ false = ground arith in
    let s₁ : Statics = record s { ifindex = index; mac = take 6 hardware; ip6 = replicate 16 0 } in
    rw (packet, fits, e, e', e'', bound)
      (λ i. returned (a.packet, get_addresses-addressed ifname sock_raw ifs s₁ i))
grnvs_open-opened ifname other_layer a index hardware ifs s short none_given e e' e'' bound =
    absurd none_given
