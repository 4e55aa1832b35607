-- ===== src/Netstring/Glued.antt =====
-- readNet of assignment4.c on segments of any length: each is put over the one before it in `part`, and
-- what is in `part` then is appended, so that the end of a longer segment is taken again.
use grnvs.Prelude.{
  ℕ, zero, suc, ◌+◌, ◌-◌, ◌^◌, ◌≡◌, ◌<◌, ◌≤◌, refl, some, List, [], ◌∷◌, ◌++◌, arith, length,
  length-append, length-drop, drop, map, ap, ◌∙◌, sym, append_assoc, append-nil,
}
use grnvs.Memory.{Bytes, index_of}
use grnvs.Memory.Strings.{Lacks, Lacks-append, drop-drop, string_at-drop}
use grnvs.Decimal.{decimal}
use grnvs.Decimal.Laws.{AllDigits-Lacks, AllDigits-decimal}
use grnvs.Netstring.{bufsize, Reply, segment, World, ok, Order, complete, read_net}
use grnvs.Netstring.Start.{start, read_net-start}
use grnvs.Netstring.Accept.{taken, extract-takes}
use grnvs.Netstring.Messages.{received}
use grnvs.Netstring.Rounds.{part_of, over, complete-round, complete-stops}

-- The segments, one behind the other.
abbrev pub joined : List Bytes → Bytes
joined [] = []
joined (q ∷ qs) = q ++ joined qs

-- What the loop appends to the string, with `old` in `part`.
abbrev pub glued : (old : Bytes) → List Bytes → Bytes
glued old [] = []
glued old (q ∷ qs) = over old q ++ glued (over old q) qs

-- `have` bytes of a netstring are there, and `old` is in `part`; its text has `n` bytes. Each segment
-- comes while the loop waits and is no longer than the loop asks for, and leaves room for a 0 byte in
-- `part`; with the last one the loop ends.
abbrev pub Follows : (n have : ℕ) → (old : Bytes) → List Bytes → Type 0
Follows n have old [] = n ≤ have
Follows n have old (q ∷ qs) =
    (have < n)
    × (length old + length q ≤ n)
    × (length (over old q) < bufsize)
    × Follows n (have + length (over old q)) (over old q) qs

pub Lacks-split : (c : ℕ) (s t : Bytes) → Lacks c (s ++ t) → Lacks c s × Lacks c t
Lacks-split c [] t h = (tt, h)
Lacks-split c (b ∷ s) t (ne, h) = let (k, l) = Lacks-split c s t h in ((ne, k), l)

Lacks-drop : (c m : ℕ) (s : Bytes) → Lacks c s → Lacks c (drop m s)
Lacks-drop c zero s h = h
Lacks-drop c (suc m) [] h = tt
Lacks-drop c (suc m) (b ∷ s) (ne, h) = Lacks-drop c m s h

Lacks-over : (c : ℕ) (old more : Bytes) → Lacks c old → Lacks c more → Lacks c (over old more)
Lacks-over c old more h k =
    Lacks-append c more (drop (length more) old) k (Lacks-drop c (length more) old h)

Lacks-glued :
    (c : ℕ) (old : Bytes) (qs : List Bytes)
    → Lacks c old
    → Lacks c (joined qs)
    → Lacks c (glued old qs)
Lacks-glued c old [] h k = tt
Lacks-glued c old (q ∷ qs) h k =
    let (q_lacks, rest) = Lacks-split c q (joined qs) k in
    let new = Lacks-over c old q h q_lacks in
    Lacks-append c (over old q) (glued (over old q) qs) new (Lacks-glued c (over old q) qs new rest)

complete-glued :
    (n fuel : ℕ) (qs : List Bytes) (s junk old : Bytes) (w : World) (later : List Reply)
    → length qs < fuel
    → n < 2 ^ 63
    → Lacks 0 s
    → Lacks 0 old
    → Lacks 0 (joined qs)
    → length old < bufsize
    → Follows n (length s) old qs
    → length (glued old qs) ≤ length junk
    → w.replies ≡ map segment qs ++ later
    → complete fuel n (s ++ (0 ∷ junk)) (part_of old) w
      ≡ ok
          ((s ++ glued old qs) ++ (0 ∷ drop (length (glued old qs)) junk))
          (record w { replies = later })
complete-glued n zero qs s junk old w later enough small lacks old_lacks qs_lacks fits follows room
      e =
    absurd (omega (arith, enough))
complete-glued n (suc fuel) [] s junk old w later enough small lacks old_lacks qs_lacks fits long
      room e =
    complete-stops n fuel s junk old w lacks long old_lacks fits
    ∙ (λ i. ok (sym (append-nil s) i ++ (0 ∷ junk)) (record w { replies = e i }))
complete-glued n (suc fuel) (q ∷ qs) s junk old w later enough small lacks old_lacks qs_lacks fits
      (short, asked, new_fits, follows) room e =
    let w' : World = record w { replies = map segment qs ++ later } in
    let new = over old q in
    let size = length-append new (glued new qs) in
    let (q_lacks, rest_lacks) = Lacks-split 0 q (joined qs) qs_lacks in
    let new_lacks = Lacks-over 0 old q old_lacks q_lacks in
    let got = received (n - length old) w q (map segment qs ++ later) e (omega arith) in
    let round =
      complete-round n fuel s junk old q new w w' refl lacks short small old_lacks fits
        (omega arith) got new_lacks new_fits (omega (arith, size)) in
    let have = length-append s new in
    let next =
      complete-glued n fuel qs (s ++ new) (drop (length new) junk) new w' later (omega arith) small
        (Lacks-append 0 s new lacks new_lacks) new_lacks rest_lacks new_fits (rw have follows)
        (omega (arith, size, length-drop (length new) junk)) refl in
    let left : drop (length (glued new qs)) (drop (length new) junk)
        ≡ drop (length (glued old (q ∷ qs))) junk =
      drop-drop (length (glued new qs)) (length new) junk ∙ ap (λ k. drop k junk) (sym size) in
    round
    ∙ (next ∙ (λ i.
        ok (append_assoc s new (glued new qs) i ++ (0 ∷ left i)) (record w { replies = later })))

-- The first segment stops somewhere behind the colon, after `p`, and is in the buffer; any number of
-- others without a 0 byte follow, each while the loop waits and no longer than the loop asks for, and
-- there is room for what they append. If what then stands behind the colon is a text `t` of the
-- announced length, not empty, and `tail`, with a comma anywhere, and `t` and `curMessageLength` have at
-- most 4096 bytes together, then `readNet`, with more fuel than other segments, takes `t` as the text.
pub read_net-glued :
    (t tail p : Bytes) (qs : List Bytes) (junk : Bytes) (order : Order) (fuel cur k : ℕ) (w : World)
    (later : List Reply) (t_lacks : Lacks 0 t) (tail_lacks : Lacks 0 tail)
    → 0 < length t
    → length t < 2 ^ 63
    → p ++ glued [] qs ≡ t ++ tail
    → index_of b',' (t ++ tail) ≡ some k
    → Lacks 0 (joined qs)
    → w.replies ≡ map segment qs ++ later
    → Follows (length t) (length (start (length t) p)) [] qs
    → length qs < fuel
    → length t + cur ≤ bufsize
    → length (glued [] qs) ≤ length junk
    → read_net order fuel (start (length t) p ++ (0 ∷ junk)) cur w
      ≡ ok
          (
            taken t tail t_lacks tail_lacks (drop (length (glued [] qs)) junk),
            some (length (decimal (length t)) + length t + 2),
          )
          (record w { replies = later })
read_net-glued t tail p qs junk order fuel cur k w later t_lacks tail_lacks some_text small parts
      comma qs_lacks e follows enough fits room =
    let n = length t in
    let all_lacks : Lacks 0 (p ++ glued [] qs) =
      rw parts (Lacks-append 0 t tail t_lacks tail_lacks) in
    let start_lacks : Lacks 0 (start n p) =
      Lacks-append 0 (decimal n) (b':' ∷ p)
        (AllDigits-Lacks 0 (decimal n) refl (AllDigits-decimal n))
        (omega arith, (Lacks-split 0 p (glued [] qs) all_lacks).0) in
    let whole : start n p ++ glued [] qs ≡ start n (t ++ tail) =
      append_assoc (decimal n) (b':' ∷ p) (glued [] qs) ∙ ap (λ s. decimal n ++ (b':' ∷ s)) parts in
    let loop =
      complete-glued n fuel qs (start n p) junk [] w later enough small start_lacks tt qs_lacks
        (omega arith) follows room e in
    read_net-start n p some_text small order fuel cur (start n p ++ (0 ∷ junk)) w
      (string_at-drop 0 (start n p ++ (0 ∷ junk)) (start n p) junk refl start_lacks)
    ∙ rw (loop, whole)
        (extract-takes t tail t_lacks tail_lacks (drop (length (glued [] qs)) junk) k comma order
          cur (record w { replies = later }) small fits)
