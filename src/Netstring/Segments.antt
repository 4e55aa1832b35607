-- ===== src/Netstring/Segments.antt =====
-- readNet of assignment4.c on a netstring that comes in several segments.
use grnvs.Prelude.{
  ℕ, ◌+◌, ◌^◌, ◌≡◌, ◌<◌, ◌≤◌, refl, some, List, [], ◌∷◌, ◌++◌, arith, length, drop, map, ap,
}
use grnvs.Memory.{Bytes}
use grnvs.Memory.Strings.{Lacks, Lacks-append, index_of-mem}
use grnvs.Decimal.{decimal}
use grnvs.Netstring.{bufsize, Reply, segment, World, ok, Order, read_net}
use grnvs.Netstring.Start.{start}
use grnvs.Netstring.Read.{extracted, buffer-taken}
use grnvs.Netstring.Rounds.{over-longer}
use grnvs.Netstring.Glued.{joined, glued, Follows, Lacks-split, read_net-glued}

-- `have` bytes of a netstring are there, `last` of them came last; its text has `n` bytes. Each further
-- segment comes while the loop waits, is at least as long as the one before it and no longer than the
-- loop asks for; with the last one the loop ends.
abbrev pub Arrives : (n have last : ℕ) → List Bytes → Type 0
Arrives n have last [] = n ≤ have
Arrives n have last (q ∷ qs) =
    (have < n)
    × (last ≤ length q)
    × (last + length q ≤ n)
    × (length q < bufsize)
    × Arrives n (have + length q) (length q) qs

Follows-Arrives :
    (n have : ℕ) (old : Bytes) (qs : List Bytes)
    → Arrives n have (length old) qs
    → Follows n have old qs
Follows-Arrives n have old [] long = long
Follows-Arrives n have old (q ∷ qs) (short, grows, asked, fits, arrives) =
    rw (over-longer old q grows)
      (short, asked, fits, Follows-Arrives n (have + length q) q qs arrives)

glued-joined :
    (n have : ℕ) (old : Bytes) (qs : List Bytes)
    → Arrives n have (length old) qs
    → glued old qs ≡ joined qs
glued-joined n have old [] long = refl
glued-joined n have old (q ∷ qs) (short, grows, asked, fits, arrives) =
    rw (over-longer old q grows) (ap (λ s. q ++ s) (glued-joined n (have + length q) q qs arrives))

-- A netstring comes in segments: the first one stops somewhere behind the colon, after `p`, and is in
-- the buffer. Any number of others follow: the second of any length, each later one at least as long as
-- the one before it; each comes while the loop waits and is no longer than the loop asks for, and there
-- is room for all of them. The
-- text is not empty and has no 0 byte; its length and `curMessageLength` are at most 4096 together.
-- With more fuel than other segments `readNet` takes them all and nothing behind them, and does what it does with the
-- whole netstring.
pub read_net-segments :
    (t p : Bytes) (qs : List Bytes) (junk : Bytes) (order : Order) (fuel cur : ℕ) (w : World)
    (later : List Reply) (t_lacks : Lacks 0 t) (some_text : 0 < length t)
    (small : length t < 2 ^ 63)
    → p ++ joined qs ≡ t ++ b',' ∷ []
    → w.replies ≡ map segment qs ++ later
    → Arrives (length t) (length (start (length t) p)) 0 qs
    → length qs < fuel
    → length t + cur ≤ bufsize
    → length (joined qs) ≤ length junk
    → read_net order fuel (start (length t) p ++ (0 ∷ junk)) cur w
      ≡ ok
          (
            extracted t [] t_lacks tt some_text small (drop (length (joined qs)) junk),
            some (length (decimal (length t)) + length t + 2),
          )
          (record w { replies = later })
read_net-segments t p qs junk order fuel cur w later t_lacks some_text small parts e arrives enough
      fits room =
    let n = length t in
    let same = glued-joined n (length (start n p)) [] qs arrives in
    let all_lacks : Lacks 0 (p ++ joined qs) =
      rw parts (Lacks-append 0 t (b',' ∷ []) t_lacks (omega arith, tt)) in
    let (k, comma) = index_of-mem b',' t [] in
    rw (buffer-taken t [] t_lacks tt some_text small (drop (length (joined qs)) junk)) (
      rw same at (
        read_net-glued t (b',' ∷ []) p qs junk order fuel cur k w later t_lacks (omega arith, tt)
          some_text small (rw same parts) comma (Lacks-split 0 p (joined qs) all_lacks).1 e
          (Follows-Arrives n (length (start n p)) [] qs arrives) enough fits (rw same room)))
