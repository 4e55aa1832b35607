-- ===== src/Checksum/Prefix.antt =====
-- icmp6_checksum reads no byte behind the length that it is given.
use grnvs.Prelude.{
  ℕ, zero, suc, ◌+◌, ◌-◌, ◌%◌, ◌<◌, ◌≤◌, ◌≡◌, refl, arith, [], ◌∷◌, ◌++◌, length, get_or, ◌==◌,
  Bool-cases, inl, inr, ap,
}
use grnvs.Checksum.{Bytes, Endian, load16, Ip6Hdr, sum_words, total, icmp6_checksum}

sum_words-append :
    (e : Endian) (left : ℕ) (p rest : Bytes) (sum : ℕ)
    → left ≤ length p - 1
    → sum_words e left (p ++ rest) sum ≡ sum_words e left p sum
unfolding sum_words
sum_words-append e zero p rest sum h = refl
sum_words-append e (suc left) [] rest sum h = absurd (omega (arith, h))
sum_words-append e (suc left) (a ∷ []) rest sum h = absurd (omega (arith, h))
sum_words-append e (suc zero) (a ∷ b ∷ p) rest sum h = refl
sum_words-append e (suc (suc left)) (a ∷ b ∷ p) rest sum h =
    sum_words-append e left p rest (sum + load16 e a b) (omega (arith, h))

get_or-append : (i : ℕ) (p rest : Bytes) → i < length p → get_or (p ++ rest) i 0 ≡ get_or p i 0
get_or-append i [] rest h = absurd (omega arith)
get_or-append zero (b ∷ p) rest h = refl
get_or-append (suc i) (b ∷ p) rest h = get_or-append i p rest (omega arith)

total-append :
    (e : Endian) (hdr : Ip6Hdr) (p rest : Bytes)
    → total e hdr (p ++ rest) (length p) ≡ total e hdr p (length p)
unfolding total
total-append e hdr p rest = elim (Bool-cases (length p % 2 == 0)) [
  | inl even ↦ rw even (sum_words-append e (length p - 1) p rest _ (omega arith))
  | inr odd ↦
      rw (odd, get_or-append (length p - 1) p rest (ground (arith, odd)))
        (ap (λ n. n + get_or p (length p - 1) 0)
          (sum_words-append e (length p - 1) p rest _ (omega arith)))
]

-- The checksum of a payload in a longer buffer.
pub icmp6_checksum-append :
    (e : Endian) (fuel : ℕ) (hdr : Ip6Hdr) (p rest : Bytes)
    → icmp6_checksum e fuel hdr (p ++ rest) (length p) ≡ icmp6_checksum e fuel hdr p (length p)
unfolding icmp6_checksum
icmp6_checksum-append e fuel hdr p rest = rw (total-append e hdr p rest, icmp6_checksum) refl
