-- ===== src/Crc/Laws.antt =====
-- What `get_crc32` of crc.c returns.
use grnvs.Prelude.{
  ℕ, ◌/◌, ◌%◌, ◌^◌, ◌≡◌, ◌<◌, refl, arith, true, false, some, List, [], ◌∷◌, ◌++◌, ap,
}
use grnvs.Prelude.Int.{ℤ}
use grnvs.Memory.{Bytes}
use grnvs.Checksum.{Endian, little, big}
use grnvs.Raw.{returned, negative}
use grnvs.Crc.{Kernel, load32, get_crc_sock, feed, get_crc32}

-- The four bytes of a `uint32_t` in memory
abbrev pub store32 : Endian → ℕ → Bytes
store32 little n = n % 256 ∷ n / 2 ^ 8 % 256 ∷ n / 2 ^ 16 % 256 ∷ n / 2 ^ 24 ∷ []
store32 big n = n / 2 ^ 24 ∷ n / 2 ^ 16 % 256 ∷ n / 2 ^ 8 % 256 ∷ n % 256 ∷ []

load32-store32 : (e : Endian) (n : ℕ) → n < 2 ^ 32 → load32 e (store32 e n) ≡ n
load32-store32 little n h = omega arith
load32-store32 big n h = omega arith

-- The socket of the checksum, where every call succeeds.
get_crc_sock-open :
    (k : Kernel)
    → negative k.socket ≡ false
    → k.bind ≡ true
    → k.set_key ≡ true
    → negative k.accept ≡ false
    → get_crc_sock k ≡ returned (k.accept, k.socket ∷ [])
unfolding get_crc_sock
get_crc_sock-open k opened bound keyed accepted =
    rw (opened, bound, keyed, accepted, get_crc_sock) refl

feed-store32 :
    (e : Endian) (junk : Bytes) (k : Kernel) (frame : Bytes) (sock : ℤ) (closed : List ℤ) (n : ℕ)
    → k.send ≡ true
    → k.recv frame ≡ some (store32 e n)
    → n < 2 ^ 32
    → feed e junk k frame sock closed ≡ returned (n, closed ++ sock ∷ [])
unfolding feed
feed-store32 little junk k frame sock closed n sent got h =
    rw (sent, got, feed) (ap (λ m. returned (m, closed ++ sock ∷ [])) (load32-store32 little n h))
feed-store32 big junk k frame sock closed n sent got h =
    rw (sent, got, feed) (ap (λ m. returned (m, closed ++ sock ∷ [])) (load32-store32 big n h))

-- Where every call succeeds and the kernel delivers a number of 32 bits for the frame, in its byte
-- order, that number is returned, and both descriptors are closed.
get_crc32-store32 :
    (e : Endian) (junk : Bytes) (k : Kernel) (frame : Bytes) (n : ℕ)
    → negative k.socket ≡ false
    → k.bind ≡ true
    → k.set_key ≡ true
    → negative k.accept ≡ false
    → k.send ≡ true
    → k.recv frame ≡ some (store32 e n)
    → n < 2 ^ 32
    → get_crc32 e junk k frame ≡ returned (n, k.socket ∷ k.accept ∷ [])
unfolding get_crc32
get_crc32-store32 e junk k frame n opened bound keyed accepted sent got h =
    rw (get_crc_sock-open k opened bound keyed accepted, get_crc32)
      (feed-store32 e junk k frame k.accept (k.socket ∷ []) n sent got h)
