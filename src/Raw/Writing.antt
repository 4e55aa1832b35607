-- ===== src/Raw/Writing.antt =====
-- grnvs_write of raw.c on a socket that grnvs_open has opened.
use grnvs.Prelude.{
  ℕ, zero, suc, ◌/◌, ◌≤◌, ◌≡◌, refl, arith, true, false, Option, none, some, List, ◌∷◌, ◌++◌, ◌==◌,
  length, take, drop, replicate, get_or, if◌then◌else◌, ap, ◌∙◌,
}
use grnvs.Prelude.Int.{ℤ, pos, negsuc}
use grnvs.Memory.{Bytes}
use grnvs.Raw.{
  Statics, Outcome, returned, negative, positive, Layer, sock_dgram, sock_raw, other_layer, Answers,
  open_writers, grnvs_open, Answer, interrupted, count, Route, to_six, to_four, to_packet,
  send_loop, grnvs_write,
}
use grnvs.Raw.Laws.{grnvs_open-stages, open_interface-write_six}

-- Where a packet belongs: a layer 2 socket sends all, a layer 3 socket by the version of the packet, an IPv6
-- packet to its own destination.
abbrev pub route_of : Layer → Bytes → Option Route
route_of sock_dgram buf =
    if get_or buf 0 0 / 16 == 6
    then some (to_six (take 16 (drop 24 buf)))
    else if get_or buf 0 0 / 16 == 4
    then some to_four
    else none
route_of sock_raw buf = some to_packet
route_of other_layer buf = none

-- What `grnvs_write` returns for it, when `n` bytes are sent in the end.
abbrev pub sent : ℕ → Option Route → Outcome (ℤ × Option Route)
sent n none = returned (negsuc 21, none)
sent n (some route) = returned (pos n, some route)

send_loop-retries :
    (k n : ℕ) (later : List Answer) (route : Route)
    → send_loop (replicate k interrupted ++ count n ∷ later) route ≡ returned (pos n, some route)
unfolding send_loop
send_loop-retries zero n later route = refl
send_loop-retries (suc k) n later route = send_loop-retries k n later route

-- Whether the sockets for writing are there: a layer 3 socket has opened them, and before a layer 2 socket none was.
abbrev pub Writers : Layer → Answers → Statics → Type 0
Writers sock_dgram a s = positive a.six ≡ true
Writers sock_raw a s = positive s.write_six ≡ false
Writers other_layer a s = ⊥

dgram_writers :
    (a : Answers) (s s' : Statics) → open_writers sock_dgram a s ≡ some s' → s'.write_six ≡ a.six
unfolding open_writers
dgram_writers a s s' h = ground arith

raw_keeps :
    (a : Answers) (s s' : Statics)
    → open_writers sock_raw a s ≡ some s'
    → s'.write_six ≡ s.write_six
unfolding open_writers
raw_keeps a s s' h = ground arith

-- Behind a successful `grnvs_open`, however often the sending is interrupted, `grnvs_write` sends a packet of at
-- least 40 bytes where it belongs, and refuses one of another version on a layer 3 socket. The layer 3
-- socket for IPv6 is not descriptor 0, and before a layer 2 socket no layer 3 socket was opened.
pub grnvs_write-route_of :
    (ifname : Bytes) (layer : Layer) (a : Answers) (k n : ℕ) (later : List Answer) (buf : Bytes)
    (s s' : Statics) (fd : ℤ)
    → Writers layer a s
    → grnvs_open ifname layer a s ≡ returned (fd, s')
    → negative s'.ifindex ≡ false
    → 40 ≤ length buf
    → grnvs_write (replicate k interrupted ++ count n ∷ later) buf s' ≡ sent n (route_of layer buf)
unfolding grnvs_write open_writers
grnvs_write-route_of ifname sock_dgram a k n later buf s s' fd writers run up long =
    let (s₁, given, e) = grnvs_open-stages ifname sock_dgram a s s' fd run in
    let six : positive s'.write_six ≡ true =
      ap positive (
        open_interface-write_six ifname sock_dgram a.index a.hardware a.addresses s₁ s' e
        ∙ dgram_writers a (record s { ip6 = replicate 16 0 }) s₁ given)
      ∙ writers in
    let six_retries = send_loop-retries k n later (to_six (take 16 (drop 24 buf))) in
    let four_retries = send_loop-retries k n later to_four in
    ground (arith, six_retries, four_retries)
grnvs_write-route_of ifname sock_raw a k n later buf s s' fd writers run up long =
    let (s₁, given, e) = grnvs_open-stages ifname sock_raw a s s' fd run in
    let six : positive s'.write_six ≡ false =
      ap positive (
        open_interface-write_six ifname sock_raw a.index a.hardware a.addresses s₁ s' e
        ∙ raw_keeps a (record s { ip6 = replicate 16 0 }) s₁ given)
      ∙ writers in
    rw (six, up) (send_loop-retries k n later to_packet)
grnvs_write-route_of ifname other_layer a k n later buf s s' fd writers run up long = absurd writers
