-- ===== src/Checksum/Sums.antt =====
-- The two summing loops of icmp6_checksum against sums by recursion on the bytes.
use grnvs.Prelude.{
  ℕ, zero, suc, ◌+◌, ◌-◌, ◌*◌, ◌%◌, ◌≡◌, refl, ap, [], ◌∷◌, ◌++◌, arith, length, get_or,
  length-append, ◌∙◌, ◌==◌, Bool-cases, if◌then◌else◌, inl, inr,
}
use grnvs.Checksum.{Bytes, Endian, load16, htonl_bytes, Ip6Hdr, pseudo_header, sum_words, total}

-- The words of `p` as the machine reads them; a last odd byte counts as it stands.
unfoldable pub word_sum : Endian → Bytes → ℕ
word_sum e [] = 0
word_sum e (a ∷ []) = a
word_sum e (a ∷ b ∷ p) = load16 e a b + word_sum e p

-- RFC 1071: the sum of the 16-bit words in network order, an odd byte padded by a zero byte.
unfoldable pub network_sum : Bytes → ℕ
network_sum [] = 0
network_sum (a ∷ []) = 256 * a
network_sum (a ∷ b ∷ p) = 256 * a + b + network_sum p

pub record IsHdr (hdr : Ip6Hdr) : Type 0 where
  pub src : length hdr.ip6_src ≡ 16
  pub dst : length hdr.ip6_dst ≡ 16

pub length-pseudo_header :
    (hdr : Ip6Hdr) (len : ℕ) → IsHdr hdr → length (pseudo_header hdr len) ≡ 40
unfolding pseudo_header htonl_bytes
length-pseudo_header hdr len h = omega (
  arith,
  length-append hdr.ip6_src (hdr.ip6_dst ++ (htonl_bytes len ++ (0 ∷ 0 ∷ 0 ∷ 58 ∷ []))),
  length-append hdr.ip6_dst (htonl_bytes len ++ (0 ∷ 0 ∷ 0 ∷ 58 ∷ [])),
)

module _ (e : Endian) where
  sum_words-even :
      (n : ℕ) (p : Bytes) (acc : ℕ)
      → n ≡ length p
      → n % 2 ≡ 0
      → sum_words e n p acc ≡ acc + word_sum e p
  unfolding sum_words word_sum
  sum_words-even zero [] acc h d = omega arith
  sum_words-even zero (a ∷ p) acc h d = absurd (omega arith)
  sum_words-even (suc zero) p acc h d = absurd (omega arith)
  sum_words-even (suc (suc n)) [] acc h d = absurd (omega arith)
  sum_words-even (suc (suc n)) (a ∷ []) acc h d = absurd (omega arith)
  sum_words-even (suc (suc n)) (a ∷ b ∷ p) acc h d =
      omega (arith, sum_words-even n p (acc + load16 e a b) (omega arith) (omega arith))

  sum_words-odd_bound :
      (n : ℕ) (p : Bytes) (acc : ℕ)
      → suc n ≡ length p
      → n % 2 ≡ 1
      → sum_words e n p acc ≡ acc + word_sum e p
  unfolding sum_words word_sum
  sum_words-odd_bound zero p acc h d = absurd (omega arith)
  sum_words-odd_bound (suc n) [] acc h d = absurd (omega arith)
  sum_words-odd_bound (suc n) (a ∷ []) acc h d = absurd (omega arith)
  sum_words-odd_bound (suc zero) (a ∷ b ∷ []) acc h d = omega arith
  sum_words-odd_bound (suc zero) (a ∷ b ∷ c ∷ p) acc h d = absurd (omega arith)
  sum_words-odd_bound (suc (suc n)) (a ∷ b ∷ p) acc h d =
      omega (arith, sum_words-odd_bound n p (acc + load16 e a b) (omega arith) (omega arith))

  sum_words-even_bound :
      (n : ℕ) (p : Bytes) (acc : ℕ)
      → suc n ≡ length p
      → n % 2 ≡ 0
      → sum_words e n p acc + get_or p n 0 ≡ acc + word_sum e p
  unfolding sum_words word_sum
  sum_words-even_bound n [] acc h d = absurd (omega arith)
  sum_words-even_bound zero (a ∷ []) acc h d = omega arith
  sum_words-even_bound zero (a ∷ b ∷ p) acc h d = absurd (omega arith)
  sum_words-even_bound (suc n) (a ∷ []) acc h d = absurd (omega arith)
  sum_words-even_bound (suc zero) (a ∷ b ∷ p) acc h d = absurd (omega arith)
  sum_words-even_bound (suc (suc n)) (a ∷ b ∷ p) acc h d =
      omega (arith, sum_words-even_bound n p (acc + load16 e a b) (omega arith) (omega arith))

  payload_sum :
      (p : Bytes) (acc : ℕ)
      → (if length p % 2 == 0
          then sum_words e (length p - 1) p acc
          else sum_words e (length p - 1) p acc + get_or p (length p - 1) 0)
        ≡ acc + word_sum e p
  payload_sum [] acc = unfold sum_words word_sum in omega arith
  payload_sum (a ∷ p) acc = elim (Bool-cases (suc (length p) % 2 == 0)) [
    | inl even ↦ rw (even, pred) (sum_words-odd_bound (length p) (a ∷ p) acc refl (ground arith))
    | inr odd ↦ rw (odd, pred) (sum_words-even_bound (length p) (a ∷ p) acc refl (ground arith))
  ]
    where
      pred : suc (length p) - 1 ≡ length p
      pred = omega arith

  -- The sum before the carry loop adds up the words of the pseudo header and of the payload.
  pub total-word_sum :
      (hdr : Ip6Hdr) (payload : Bytes)
      → IsHdr hdr
      → total e hdr payload (length payload)
        ≡ word_sum e (pseudo_header hdr (length payload)) + word_sum e payload
  unfolding total
  total-word_sum hdr payload h =
      let head = pseudo_header hdr (length payload) in
      let size : length head ≡ 40 = length-pseudo_header hdr (length payload) h in
      payload_sum payload (sum_words e (length head) head 0)
      ∙ ap (λ t. t + word_sum e payload)
          (sum_words-even (length head) head 0 refl (omega arith) ∙ omega arith)
