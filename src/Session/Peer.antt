-- ===== src/Session/Peer.antt =====
-- A server as `assignment4` meets it: how its texts arrive, each as a netstring in segments.
use grnvs.Prelude.{
  suc, ◌≡◌, ◌<◌, ◌≤◌, refl, arith, List, [], ◌∷◌, ◌++◌, ltb, if◌then◌else◌, length, length-append,
  map, Bool-cases, inl, inr, ap, append-nil,
}
use grnvs.Memory.{Bytes}
use grnvs.Decimal.{decimal}
use grnvs.Netstring.{Reply, segment}
use grnvs.Netstring.Start.{start}
use grnvs.Netstring.Receive.{IsText}
use grnvs.Netstring.Glued.{joined}
use grnvs.Netstring.Segments.{Arrives}
use grnvs.Netstring.Stream.{Present}

-- The netstring of a text in segments: the first one stops behind the colon or later, the second is of any
-- length, each later one at least as long as the one before it; each but the first comes while `readNet`
-- waits and is no longer than it asks for.
abbrev pub InSegments : Bytes → List Reply → Type 0
InSegments t replies =
    (p : Bytes) × (qs : List Bytes) × (replies ≡ segment (start (length t) p) ∷ map segment qs)
    × (p ++ joined qs ≡ t ++ b',' ∷ [])
    × Present qs
    × Arrives (length t) (length (start (length t) p)) 0 qs

pub record Peer : Type 0 where
  pub arrive : Bytes → List Reply
  pub arrive-InSegments : (t : Bytes) → IsText t → length t ≤ 2047 → InSegments t (arrive t)

-- The server that sends each netstring in one segment.
abbrev pub in_one : Peer
in_one = record {
  arrive = λ t. segment (start (length t) (t ++ b',' ∷ [])) ∷ [];
  arrive-InSegments = λ t k h. (
    t ++ b',' ∷ [],
    [],
    refl,
    append-nil (t ++ b',' ∷ []),
    tt,
    omega (
      arith,
      length-append (decimal (length t)) (b':' ∷ (t ++ b',' ∷ [])),
      length-append t (b',' ∷ []),
    ),
  );
}

-- The server that stops behind the first byte of a text, where the text is long enough for that.
abbrev pub split_arrive : Bytes → List Reply
split_arrive [] = in_one.arrive []
split_arrive (b ∷ t) =
    if ltb (length (start (suc (length t)) (b ∷ []))) (suc (length t))
    then segment (start (suc (length t)) (b ∷ [])) ∷ segment (t ++ b',' ∷ []) ∷ []
    else in_one.arrive (b ∷ t)

pub split-InSegments : (t : Bytes) → IsText t → length t ≤ 2047 → InSegments t (split_arrive t)
split-InSegments [] k h = absurd (omega (arith, k.1))
split-InSegments (b ∷ t) k h =
    elim (Bool-cases (ltb (length (start (suc (length t)) (b ∷ []))) (suc (length t)))) [
      | inl short ↦
          let size = length-append t (b',' ∷ []) in
          let early : length (start (suc (length t)) (b ∷ [])) < suc (length t) =
            ground (arith, short) in
          rw short (
            b ∷ [],
            (t ++ b',' ∷ []) ∷ [],
            refl,
            ap (λ s. b ∷ s) (append-nil (t ++ b',' ∷ [])),
            (omega (arith, size), tt),
            (early, omega arith, omega (arith, size), omega (arith, size), omega (arith, size)),
          )
      | inr long ↦ rw long (in_one.arrive-InSegments (b ∷ t) k h)
    ]

abbrev pub split : Peer
split = record { arrive = split_arrive; arrive-InSegments = split-InSegments }
