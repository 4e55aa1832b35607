-- ===== src/Checksum/Order.antt =====
-- How the machine's sums and the network's are related.
use grnvs.Prelude.{ℕ, ◌+◌, ◌*◌, ◌%◌, ◌≡◌, refl, [], ◌∷◌, ◌++◌, arith, length}
use grnvs.Checksum.{Bytes, Endian, little, big, load16}
use grnvs.Checksum.Sums.{word_sum, network_sum}

-- The bytes at even places.
unfoldable pub evens : Bytes → ℕ
evens [] = 0
evens (a ∷ []) = a
evens (a ∷ b ∷ p) = a + evens p

unfoldable pub last_odd : Bytes → ℕ
last_odd [] = 0
last_odd (a ∷ []) = a
last_odd (a ∷ b ∷ p) = last_odd p

pub network-little : (p : Bytes) → 256 * network_sum p ≡ word_sum little p + 65535 * evens p
unfolding network_sum word_sum evens load16
network-little [] = omega arith
network-little (a ∷ []) = omega arith
network-little (a ∷ b ∷ p) = omega (arith, network-little p)

pub network-big : (p : Bytes) → network_sum p ≡ word_sum big p + 255 * last_odd p
unfolding network_sum word_sum last_odd load16
network-big [] = omega arith
network-big (a ∷ []) = omega arith
network-big (a ∷ b ∷ p) = omega (arith, network-big p)

pub last_odd-even : (p : Bytes) → length p % 2 ≡ 0 → last_odd p ≡ 0
unfolding last_odd
last_odd-even [] h = refl
last_odd-even (a ∷ []) h = absurd (omega arith)
last_odd-even (a ∷ b ∷ p) h = last_odd-even p (omega arith)

pub network_sum-append :
    (p q : Bytes) → length p % 2 ≡ 0 → network_sum (p ++ q) ≡ network_sum p + network_sum q
unfolding network_sum
network_sum-append [] q h = omega arith
network_sum-append (a ∷ []) q h = absurd (omega arith)
network_sum-append (a ∷ b ∷ p) q h = omega (arith, network_sum-append p q (omega arith))

pub word_sum-append :
    (e : Endian) (p q : Bytes)
    → length p % 2 ≡ 0
    → word_sum e (p ++ q) ≡ word_sum e p + word_sum e q
unfolding word_sum
word_sum-append e [] q h = omega arith
word_sum-append e (a ∷ []) q h = absurd (omega arith)
word_sum-append e (a ∷ b ∷ p) q h = omega (arith, word_sum-append e p q (omega arith))
