-- ===== src/Netstring/Rounds.antt =====
-- The loop of readNet of assignment4.c, round by round. `part` holds what was read last, and behind it
-- what an earlier, longer read has left: `buf` is not cleared between two reads.
use grnvs.Prelude.{
  ℕ, zero, suc, ◌+◌, ◌-◌, ◌%◌, ◌^◌, ◌≡◌, ◌<◌, ◌≤◌, refl, some, [], ◌∷◌, ◌++◌, arith, lt→ltb, le→ltb,
  length, length-append, length-drop, drop, ap, ◌∙◌, sym, append_assoc, append-nil,
}
use grnvs.Memory.{Bytes, zeros, string_at, write_at}
use grnvs.Memory.Strings.{Lacks, length-zeros, string_at-drop, write_at-start, write_at-middle}
use grnvs.Netstring.{bufsize, World, ok, read, complete}

-- The local buffer of readNet, with a string in it.
abbrev pub part_of : Bytes → Bytes
part_of s = s ++ zeros (bufsize - length s)

-- What is in it after a read of `more` over the string `old`.
abbrev pub over : (old more : Bytes) → Bytes
over old more = more ++ drop (length more) old

drop-zeros_le : (m k : ℕ) → drop m (zeros k) ≡ zeros (k - m)
unfolding zeros
drop-zeros_le zero k = ap (λ j. zeros j) (omega arith)
drop-zeros_le (suc m) zero = let e : 0 ≡ 0 - suc m = omega arith in ap (λ j. zeros j) e
drop-zeros_le (suc m) (suc k) = drop-zeros_le m k ∙ ap (λ j. zeros j) (omega arith)

drop-padded :
    (m : ℕ) (old : Bytes) (k : ℕ)
    → drop m (old ++ zeros k) ≡ drop m old ++ zeros (k - (m - length old))
drop-padded zero [] k = ap (λ j. zeros j) (omega arith)
drop-padded zero (b ∷ old) k = ap (λ j. (b ∷ old) ++ zeros j) (omega arith)
drop-padded (suc m) [] k = drop-zeros_le (suc m) k ∙ ap (λ j. zeros j) (omega arith)
drop-padded (suc m) (b ∷ old) k =
    drop-padded m old k ∙ ap (λ j. drop m old ++ zeros (k - j)) (omega arith)

length-over : (old more : Bytes) → length (over old more) ≡ length more + (length old - length more)
length-over old more =
    omega (arith, length-append more (drop (length more) old), length-drop (length more) old)

write-part :
    (old more : Bytes)
    → length old ≤ bufsize
    → length more ≤ bufsize
    → write_at 0 more (part_of old) ≡ some (part_of (over old more))
write-part old more h k =
    let size = length-over old more in
    let room : length more ≤ length (part_of old) = omega (
      arith,
      length-append old (zeros (bufsize - length old)),
      length-zeros (bufsize - length old),
    ) in
    let left : bufsize - length old - (length more - length old)
        ≡ bufsize - length (over old more) =
      omega (arith, size) in
    write_at-start more (part_of old) room
    ∙ ap (λ s. some (more ++ s))
        (drop-padded (length more) old (bufsize - length old)
          ∙ ap (λ j. drop (length more) old ++ zeros j) left)
    ∙ ap some (
        sym (append_assoc more (drop (length more) old) (zeros (bufsize - length (over old more)))))

string-part : (s : Bytes) → length s < bufsize → Lacks 0 s → string_at (part_of s) 0 ≡ some s
unfolding zeros
string-part s h lacks =
    let last : bufsize - length s ≡ suc (bufsize - suc (length s)) = omega arith in
    string_at-drop 0 (part_of s) s (zeros (bufsize - suc (length s))) (ap (λ j. s ++ zeros j) last)
      lacks

-- A round: what is read is put over the string in `part`, and all of it is appended.
pub complete-round :
    (n fuel : ℕ) (s junk old more new : Bytes) (w w' : World)
    → over old more ≡ new
    → Lacks 0 s
    → length s < n
    → n < 2 ^ 63
    → Lacks 0 old
    → length old < bufsize
    → length old ≤ n
    → read (n - length old) w ≡ ok (some more) w'
    → Lacks 0 new
    → length new < bufsize
    → length new ≤ length junk
    → complete (suc fuel) n (s ++ (0 ∷ junk)) (part_of old) w
      ≡ complete fuel n ((s ++ new) ++ (0 ∷ drop (length new) junk)) (part_of new) w'
unfolding complete
complete-round n fuel s junk old more new w w' same lacks short small old_lacks old_fits asks got
      new_lacks fits room =
    let wanted : (n + 2 ^ 64 - length old) % 2 ^ 64 ≡ n - length old = omega arith in
    let more_fits : length more ≤ bufsize =
      omega (arith, length-over old more, ap (λ (t : Bytes). length t) same) in
    let put : write_at 0 more (part_of old) ≡ some (part_of new) =
      write-part old more (omega arith) more_fits ∙ ap (λ t. some (part_of t)) same in
    let dropped : length (new ++ 0 ∷ []) ≡ suc (length new) =
      omega (arith, length-append new (0 ∷ [])) in
    let group : s ++ ((new ++ 0 ∷ []) ++ drop (length (new ++ 0 ∷ [])) (0 ∷ junk))
        ≡ (s ++ new) ++ (0 ∷ drop (length new) junk) =
      rw dropped (
        ap (λ t. s ++ t) (append_assoc new (0 ∷ []) (drop (length new) junk))
        ∙ sym (append_assoc s new (0 ∷ drop (length new) junk))) in
    let append : write_at (length s) (new ++ 0 ∷ []) (s ++ (0 ∷ junk))
        ≡ some ((s ++ new) ++ (0 ∷ drop (length new) junk)) =
      write_at-middle (length s) s (new ++ 0 ∷ []) (0 ∷ junk) refl (omega (arith, dropped))
      ∙ ap some group in
    rw
      (
        string_at-drop 0 (s ++ (0 ∷ junk)) s junk refl lacks,
        string-part old old_fits old_lacks,
        lt→ltb (length s) n short,
        wanted,
        got,
      )
      (rw (put, string-part new fits new_lacks) (rw append refl))

-- The loop stops when the string is as long as the text.
pub complete-stops :
    (n fuel : ℕ) (s junk old : Bytes) (w : World)
    → Lacks 0 s
    → n ≤ length s
    → Lacks 0 old
    → length old < bufsize
    → complete (suc fuel) n (s ++ (0 ∷ junk)) (part_of old) w ≡ ok (s ++ (0 ∷ junk)) w
unfolding complete
complete-stops n fuel s junk old w lacks long old_lacks old_fits =
    rw (string_at-drop 0 (s ++ (0 ∷ junk)) s junk refl lacks, string-part old old_fits old_lacks)
      (rw (le→ltb (length s) n long) refl)

drop_all : (m : ℕ) (s : Bytes) → length s ≤ m → drop m s ≡ []
drop_all zero [] h = refl
drop_all zero (b ∷ s) h = absurd (omega arith)
drop_all (suc m) [] h = refl
drop_all (suc m) (b ∷ s) h = drop_all m s (omega arith)

-- Nothing is left of a shorter string.
pub over-longer : (old more : Bytes) → length old ≤ length more → over old more ≡ more
over-longer old more h = ap (λ s. more ++ s) (drop_all (length more) old h) ∙ append-nil more
