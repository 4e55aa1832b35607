-- ===== src/Checksum/Tests.antt =====
-- Runs of icmp6_checksum of assignment2/libraw/src/checksum.c, and its theorems at small packets.
use grnvs.Prelude.{ℕ, ◌+◌, ◌<◌, ◌≡◌, ◌≢◌, refl, some, [], ◌∷◌, inl, arith, replicate}
use grnvs.Checksum.{
  Bytes, Endian, little, big, load16, store16, htonl_bytes, Ip6Hdr, pseudo_header, sum_words, carry,
  total, icmp6_checksum,
}
use grnvs.Checksum.Order.{last_odd}
use grnvs.Checksum.Sums.{IsHdr}
use grnvs.Checksum.Laws.{
  rfc_checksum, icmp6_checksum-rfc_checksum, icmp6_checksum-big_odd, icmp6_checksum-filled,
}

abbrev header : Ip6Hdr
header = record { ip6_src = 0xfe ∷ replicate 15 1; ip6_dst = 0xfd ∷ replicate 15 2 }

-- An echo request with one byte of payload, its checksum field zero.
abbrev ping : Bytes
ping = 128 ∷ 0 ∷ 0 ∷ 0 ∷ 0xab ∷ 0 ∷ 0 ∷ 7 ∷ 9 ∷ []

header-IsHdr : IsHdr header
header-IsHdr = record { src = refl; dst = refl }

ping_total : (e : Endian) → total e header ping 9 + 65536 < 1000000
unfolding total sum_words load16 pseudo_header htonl_bytes
ping_total little = omega arith
ping_total big = omega arith

ping_sum : icmp6_checksum little 9 header ping 9 ≡ some 39611
unfolding icmp6_checksum carry total sum_words load16 pseudo_header htonl_bytes
ping_sum = refl

icmp6_checksum-rfc_checksum_example :
    (sum : ℕ) × (icmp6_checksum little 1000000 header ping 9 ≡ some sum)
    × (store16 little sum ≡ rfc_checksum header ping)
icmp6_checksum-rfc_checksum_example =
    icmp6_checksum-rfc_checksum little 1000000 header ping header-IsHdr (inl refl)
      (omega (arith, ping_total little))

big_sum : icmp6_checksum big 1000000 header ping 9 ≡ some 50321
unfolding icmp6_checksum carry total sum_words load16 pseudo_header htonl_bytes
big_sum = refl

icmp6_checksum-big_odd_example : store16 big 50321 ≢ rfc_checksum header ping
unfolding last_odd
icmp6_checksum-big_odd_example =
    icmp6_checksum-big_odd 1000000 header ping 50321 header-IsHdr (omega arith) (omega arith)
      (omega (arith, ping_total big)) big_sum

wide_sum : icmp6_checksum little 1000000 header ping 9 ≡ some 39611
unfolding icmp6_checksum carry total sum_words load16 pseudo_header htonl_bytes
wide_sum = refl

icmp6_checksum-filled_example :
    icmp6_checksum little 1000000 header (128 ∷ 0 ∷ 187 ∷ 154 ∷ 0xab ∷ 0 ∷ 0 ∷ 7 ∷ 9 ∷ []) 9
    ≡ some 0
unfolding store16
icmp6_checksum-filled_example =
    icmp6_checksum-filled little 1000000 header (128 ∷ 0 ∷ []) (0xab ∷ 0 ∷ 0 ∷ 7 ∷ 9 ∷ []) 39611 187
      154 header-IsHdr (omega arith) (ping_total little) wide_sum refl
