-- ===== src/Checksum/Laws.antt =====
-- icmp6_checksum of assignment2/libraw/src/checksum.c against RFC 1071.
use grnvs.Prelude.{
  ℕ, zero, suc, ◌+◌, ◌-◌, ◌*◌, ◌/◌, ◌%◌, ◌<◌, ◌≤◌, ◌≡◌, ◌≢◌, ◌⊎◌, refl, ap, ap₂, some, List, [],
  ◌∷◌, ◌++◌, arith, length, length-append, inl, inr, ◌∙◌, sym,
}
use grnvs.Checksum.{
  Bytes, Endian, little, big, load16, store16, htonl_bytes, Ip6Hdr, pseudo_header, total,
  icmp6_checksum,
}
use grnvs.Checksum.Sums.{word_sum, network_sum, IsHdr, length-pseudo_header, total-word_sum}
use grnvs.Checksum.Fold.{ones_fold, carry-ones_fold}
use grnvs.Checksum.Order.{
  evens, last_odd, network-little, network-big, last_odd-even, network_sum-append, word_sum-append,
}

-- The checksum field as RFC 1071 defines it over pseudo header and payload: the complement of the
-- ones' complement sum of their words, in network order.
unfoldable pub rfc_checksum : Ip6Hdr → Bytes → Bytes
rfc_checksum hdr payload =
    let sum = ones_fold (network_sum (pseudo_header hdr (length payload) ++ payload)) in
    (65535 - sum) / 256 ∷ (65535 - sum) % 256 ∷ []

ones_fold-le : (t : ℕ) → ones_fold t ≤ 65535
unfolding ones_fold
ones_fold-le zero = omega arith
ones_fold-le (suc t) = omega arith

pseudo-pos :
    (e : Endian) (hdr : Ip6Hdr) (len : ℕ) → IsHdr hdr → 0 < word_sum e (pseudo_header hdr len)
unfolding pseudo_header htonl_bytes
pseudo-pos e hdr len h = omega (
  arith,
  word_sum-append e hdr.ip6_src (hdr.ip6_dst ++ (htonl_bytes len ++ (0 ∷ 0 ∷ 0 ∷ 58 ∷ [])))
      (omega arith),
  word_sum-append e hdr.ip6_dst (htonl_bytes len ++ (0 ∷ 0 ∷ 0 ∷ 58 ∷ [])) (omega arith),
  tail-pos e,
)
  where
    tail-pos : (e : Endian) → 0 < word_sum e (htonl_bytes len ++ (0 ∷ 0 ∷ 0 ∷ 58 ∷ []))
    tail-pos little = unfold word_sum load16 in omega arith
    tail-pos big = unfold word_sum load16 in omega arith

total-pos : (e : Endian) (hdr : Ip6Hdr) (p : Bytes) → IsHdr hdr → 0 < total e hdr p (length p)
total-pos e hdr p h = omega (arith, total-word_sum e hdr p h, pseudo-pos e hdr (length p) h)

-- The value returned, once the fuel exceeds the sum.
icmp6_checksum-total :
    (e : Endian) (fuel : ℕ) (hdr : Ip6Hdr) (p : Bytes)
    → total e hdr p (length p) < fuel
    → icmp6_checksum e fuel hdr p (length p) ≡ some (65535 - ones_fold (total e hdr p (length p)))
unfolding icmp6_checksum
icmp6_checksum-total e fuel hdr p h =
    let sum = total e hdr p (length p) in
    rw (carry-ones_fold fuel sum h, icmp6_checksum) (ap some (omega (arith, ones_fold-le sum)))

fold-little :
    (t r k : ℕ)
    → 0 < t
    → 256 * r ≡ t + 65535 * k
    → ((65535 - ones_fold t) % 256 ≡ (65535 - ones_fold r) / 256)
      × ((65535 - ones_fold t) / 256 ≡ (65535 - ones_fold r) % 256)
unfolding ones_fold
fold-little zero r k h e = absurd (omega arith)
fold-little (suc t) zero k h e = absurd (omega arith)
fold-little (suc t) (suc r) k h e = (omega arith, omega arith)

-- The network's sum over pseudo header and payload, from that of the machine.
network_sum-total :
    (hdr : Ip6Hdr) (p : Bytes)
    → IsHdr hdr
    → (256 * network_sum (pseudo_header hdr (length p) ++ p)
        ≡ total little hdr p (length p) + 65535 * (evens (pseudo_header hdr (length p)) + evens p))
      × (network_sum (pseudo_header hdr (length p) ++ p)
          ≡ total big hdr p (length p) + 255 * last_odd p)
network_sum-total hdr p h =
    let head = pseudo_header hdr (length p) in
    let size : length head ≡ 40 = length-pseudo_header hdr (length p) h in
    let even : length head % 2 ≡ 0 = omega arith in
    (
      omega (
        arith,
        network_sum-append head p even,
        network-little head,
        network-little p,
        total-word_sum little hdr p h,
      ),
      omega (
        arith,
        network_sum-append head p even,
        network-big head,
        network-big p,
        last_odd-even head even,
        total-word_sum big hdr p h,
      ),
    )

-- On a little-endian machine for every payload, and on a big-endian one for every payload of even
-- length, the call returns (with more fuel than the sum), and its result in memory is the
-- checksum field of RFC 1071.
pub icmp6_checksum-rfc_checksum :
    (e : Endian) (fuel : ℕ) (hdr : Ip6Hdr) (payload : Bytes)
    → IsHdr hdr
    → (e ≡ little) ⊎ (length payload % 2 ≡ 0)
    → total e hdr payload (length payload) < fuel
    → (sum : ℕ) × (icmp6_checksum e fuel hdr payload (length payload) ≡ some sum)
      × (store16 e sum ≡ rfc_checksum hdr payload)
unfolding store16 rfc_checksum
icmp6_checksum-rfc_checksum little fuel hdr p h _ f =
    let (le, be) = network_sum-total hdr p h in
    let (lo, hi) =
      fold-little (total little hdr p (length p)) (network_sum (pseudo_header hdr (length p) ++ p))
        (evens (pseudo_header hdr (length p)) + evens p) (total-pos little hdr p h) le in
    (
      65535 - ones_fold (total little hdr p (length p)),
      icmp6_checksum-total little fuel hdr p f,
      ap₂ (λ a b. a ∷ b ∷ []) lo hi,
    )
icmp6_checksum-rfc_checksum big fuel hdr p h (inl e) f = cc
icmp6_checksum-rfc_checksum big fuel hdr p h (inr even) f =
    let (le, be) = network_sum-total hdr p h in
    let same : network_sum (pseudo_header hdr (length p) ++ p) ≡ total big hdr p (length p) =
      omega (arith, last_odd-even p even) in
    (
      65535 - ones_fold (total big hdr p (length p)),
      icmp6_checksum-total big fuel hdr p f,
      ap (λ t. (65535 - ones_fold t) / 256 ∷ (65535 - ones_fold t) % 256 ∷ []) (sym same),
    )

fold-apart :
    (t r b : ℕ)
    → 0 < t
    → 0 < b
    → b < 256
    → r ≡ t + 255 * b
    → 65535 - ones_fold t ≢ 65535 - ones_fold r
unfolding ones_fold
fold-apart zero r b h p q e = absurd (omega arith)
fold-apart (suc t) zero b h p q e = absurd (omega arith)
fold-apart (suc t) (suc r) b h p q e = λ same. omega arith

bytes-value : (x y : ℕ) → ◌≡◌ {A = List ℕ} (x / 256 ∷ x % 256 ∷ []) (y / 256 ∷ y % 256 ∷ []) → x ≡ y
bytes-value x y e =
    let hi : x / 256 ≡ y / 256 = cc in let lo : x % 256 ≡ y % 256 = cc in omega arith

-- On a big-endian machine the result for a payload of odd length is not the checksum field of
-- RFC 1071, unless the payload's last byte is zero.
pub icmp6_checksum-big_odd :
    (fuel : ℕ) (hdr : Ip6Hdr) (payload : Bytes) (sum : ℕ)
    → IsHdr hdr
    → 0 < last_odd payload
    → last_odd payload < 256
    → total big hdr payload (length payload) < fuel
    → icmp6_checksum big fuel hdr payload (length payload) ≡ some sum
    → store16 big sum ≢ rfc_checksum hdr payload
unfolding store16 rfc_checksum
icmp6_checksum-big_odd fuel hdr p sum h b_pos b_byte f e same =
    let value : sum ≡ 65535 - ones_fold (total big hdr p (length p)) =
      cc (icmp6_checksum-total big fuel hdr p f) in
    fold-apart (total big hdr p (length p)) (network_sum (pseudo_header hdr (length p) ++ p))
      (last_odd p) (total-pos big hdr p h) b_pos b_byte (network_sum-total hdr p h).1
      (sym value ∙ bytes-value sum _ same)

load16-store16 : (e : Endian) (w a b : ℕ) → store16 e w ≡ a ∷ b ∷ [] → load16 e a b ≡ w
unfolding load16 store16
load16-store16 little w a b h =
    let lo : w % 256 ≡ a = cc in let hi : w / 256 ≡ b = cc in omega arith
load16-store16 big w a b h = let lo : w % 256 ≡ b = cc in let hi : w / 256 ≡ a = cc in omega arith

fold-complement : (t : ℕ) → 0 < t → 65535 - ones_fold (t + (65535 - ones_fold t)) ≡ 0
unfolding ones_fold
fold-complement zero h = absurd (omega arith)
fold-complement (suc t) h =
    let u = suc t + (65535 - (1 + t % 65535)) in
    let e : u ≡ suc (u - 1) = omega arith in rw e (omega arith)

word_sum-pair :
    (e : Endian) (a b : ℕ) (p : Bytes) → word_sum e (a ∷ b ∷ p) ≡ load16 e a b + word_sum e p
unfolding word_sum
word_sum-pair e a b p = refl

load16-zero : (e : Endian) → load16 e 0 0 ≡ 0
unfolding load16
load16-zero little = refl
load16-zero big = refl

-- Filling the zeroed checksum field of a payload, at an even offset, with the result makes the
-- checksum of the filled payload 0, in either byte order: the receiver's test passes.
pub icmp6_checksum-filled :
    (e : Endian) (fuel : ℕ) (hdr : Ip6Hdr) (pre post : Bytes) (sum a b : ℕ)
    → IsHdr hdr
    → length pre % 2 ≡ 0
    → total e hdr (pre ++ (0 ∷ 0 ∷ post)) (length (pre ++ (0 ∷ 0 ∷ post))) + 65536 < fuel
    → icmp6_checksum e fuel hdr (pre ++ (0 ∷ 0 ∷ post)) (length (pre ++ (0 ∷ 0 ∷ post))) ≡ some sum
    → store16 e sum ≡ a ∷ b ∷ []
    → icmp6_checksum e fuel hdr (pre ++ (a ∷ b ∷ post)) (length (pre ++ (a ∷ b ∷ post))) ≡ some 0
icmp6_checksum-filled e fuel hdr pre post sum a b h even f c s =
    icmp6_checksum-total e fuel hdr filled (omega (arith, grows))
    ∙ ap some
        (ap (λ t. 65535 - ones_fold t) grows ∙ fold-complement before (total-pos e hdr blank h))
  where
    blank : Bytes
    blank = pre ++ (0 ∷ 0 ∷ post)

    filled : Bytes
    filled = pre ++ (a ∷ b ∷ post)

    before : ℕ
    before = total e hdr blank (length blank)

    size : length filled ≡ length blank
    size = omega (arith, length-append pre (0 ∷ 0 ∷ post), length-append pre (a ∷ b ∷ post))

    value : sum ≡ 65535 - ones_fold before
    value = cc (icmp6_checksum-total e fuel hdr blank (omega arith))

    same_head :
        word_sum e (pseudo_header hdr (length filled))
        ≡ word_sum e (pseudo_header hdr (length blank))
    same_head = ap (λ n. word_sum e (pseudo_header hdr n)) size

    grows : total e hdr filled (length filled) ≡ before + (65535 - ones_fold before)
    grows = omega (
      arith,
      total-word_sum e hdr blank h,
      total-word_sum e hdr filled h,
      word_sum-append e pre (0 ∷ 0 ∷ post) even,
      word_sum-append e pre (a ∷ b ∷ post) even,
      word_sum-pair e 0 0 post,
      word_sum-pair e a b post,
      load16-zero e,
      load16-store16 e sum a b s,
      value,
      same_head,
    )
