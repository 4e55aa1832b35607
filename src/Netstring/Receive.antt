-- ===== src/Netstring/Receive.antt =====
-- The loop of recvMessage of assignment4.c on a buffer of whole netstrings.
use grnvs.Prelude.{
  ℕ, zero, suc, ◌+◌, ◌*◌, ◌^◌, ◌≡◌, ◌<◌, ◌≤◌, refl, false, none, some, List, [], ◌∷◌, ◌++◌, arith,
  ◌==◌, length, length-append, length-drop, drop, get_or, ap, ◌∙◌, sym, append_assoc, append-nil,
}
use grnvs.Memory.{Bytes, string_at, write_at}
use grnvs.Memory.Strings.{Lacks, string_at-drop, write_at-middle, write_at-start}
use grnvs.Decimal.{decimal}
use grnvs.Netstring.{bufsize, World, ok, crash, Order, read_net, recv_loop}
use grnvs.Netstring.Write.{netstring}
use grnvs.Netstring.Read.{
  extracted, whole-text, read_net-netstring, rest-string, length-extracted, head-whole,
}

-- A text that `readNet` takes: not empty, with no 0 byte.
abbrev pub IsText : Bytes → Type 0
IsText s = Lacks 0 s × (0 < length s)

abbrev pub AllText : List Bytes → Type 0
AllText [] = Unit {0}
AllText (t ∷ ts) = IsText t × AllText ts

-- The replies' bytes, and the texts one behind the other, each with its 0 byte.
abbrev pub netstrings : List Bytes → Bytes
netstrings [] = []
netstrings (t ∷ ts) = netstring t ++ netstrings ts

abbrev pub packed : List Bytes → Bytes
packed [] = []
packed (t ∷ ts) = t ++ (0 ∷ packed ts)

-- The room that `recvMessage` needs behind `used` bytes: it writes each text twice.
abbrev pub Fits : ℕ → List Bytes → Type 0
Fits used [] = Unit {0}
Fits used (t ∷ ts) = (used + 2 * (length t + 1) ≤ bufsize) × Fits (used + (length t + 1)) ts

netstrings-Lacks :
    (ts : List Bytes) (used : ℕ) → AllText ts → Fits used ts → Lacks 0 (netstrings ts)
netstrings-Lacks [] used k f = tt
netstrings-Lacks (t ∷ ts) used ((h, more), k) (f, fs) =
    whole-text t (netstrings ts) h (netstrings-Lacks ts (used + (length t + 1)) k fs) more
      (omega arith)

-- One round of `recvMessage`, from what its calls give.
recv_loop-round :
    (order : Order) (fuel nets used next : ℕ) (buf buf₁ buf₂ resp resp₁ resp₂ text later : Bytes)
    (w : World)
    → (get_or buf 0 0 == 0) ≡ false
    → read_net order bufsize buf used w ≡ ok (buf₁, some next) w
    → string_at buf₁ 0 ≡ some text
    → write_at used (text ++ 0 ∷ []) resp ≡ some resp₁
    → write_at (used + (length text + 1)) (text ++ 0 ∷ []) resp₁ ≡ some resp₂
    → string_at buf₁ next ≡ some later
    → write_at 0 (later ++ 0 ∷ []) buf₁ ≡ some buf₂
    → recv_loop order (suc fuel) buf resp used nets w
      ≡ recv_loop order fuel buf₂ resp₂ (used + (length text + 1)) (nets + 1) w
unfolding recv_loop
recv_loop-round order fuel nets used next buf buf₁ buf₂ resp resp₁ resp₂ text later w head net
      at_start first second at_next move =
    rw (head, net) (rw (at_start, first) (rw (second, at_next, move) refl))

-- The buffer behind a text that was read and moved away: the rest, and what the copies left.
module _ (t : Bytes) (ts : List Bytes) (used : ℕ) (k : AllText (t ∷ ts)) (f : Fits used (t ∷ ts))
    (junk : Bytes) where
  pub rest-Lacks : Lacks 0 (netstrings ts)
  rest-Lacks = netstrings-Lacks ts (used + (length t + 1)) k.1 f.1

  pub small : length t < 2 ^ 63
  small = omega (arith, f.0)

  abbrev pub read_buf : Bytes
  read_buf = extracted t (netstrings ts) k.0.0 rest-Lacks k.0.1 small junk

  abbrev pub moved : Bytes
  moved = drop (length (netstrings ts ++ 0 ∷ [])) read_buf

  move : write_at 0 (netstrings ts ++ 0 ∷ []) read_buf ≡ some (netstrings ts ++ (0 ∷ moved))
  move =
      write_at-start (netstrings ts ++ 0 ∷ []) read_buf (
        omega (
          arith,
          length-extracted t (netstrings ts) k.0.0 rest-Lacks k.0.1 small junk,
          length-append (netstring t ++ netstrings ts) (0 ∷ junk),
          length-append (netstring t) (netstrings ts),
          length-append (netstrings ts) (0 ∷ []),
        ))
      ∙ ap some (append_assoc (netstrings ts) (0 ∷ []) moved)

  module _ (order : Order) (fuel nets : ℕ) (pre room : Bytes) (w : World)
      (pre_used : length pre ≡ used) (all : length pre + length room ≡ bufsize) where
    abbrev pub written : Bytes
    written = t ++ 0 ∷ []

    -- The room behind both copies; the second copy stands where the next text goes.
    abbrev pub later_room : Bytes
    later_room = written ++ drop (length written) (drop (length written) room)

    later_all : length (pre ++ written) + length later_room ≡ bufsize
    later_all = omega (
      arith,
      f.0,
      pre_used,
      all,
      length-append pre written,
      length-append t (0 ∷ []),
      length-append written (drop (length written) (drop (length written) room)),
      length-drop (length written) (drop (length written) room),
      length-drop (length written) room,
    )

    first :
        write_at used written (pre ++ room) ≡ some ((pre ++ written) ++ drop (length written) room)
    first =
        write_at-middle used pre written room pre_used
          (omega (arith, f.0, pre_used, all, length-append t (0 ∷ [])))
        ∙ ap some (sym (append_assoc pre written (drop (length written) room)))

    second :
        write_at (used + (length t + 1)) written ((pre ++ written) ++ drop (length written) room)
        ≡ some ((pre ++ written) ++ later_room)
    second =
        write_at-middle (used + (length t + 1)) (pre ++ written) written
          (drop (length written) room)
          (omega (arith, pre_used, length-append pre written, length-append t (0 ∷ [])))
          (omega (
            arith,
            f.0,
            pre_used,
            all,
            length-append t (0 ∷ []),
            length-drop (length written) room,
          ))

    pub recv_loop-netstring :
        recv_loop order (suc fuel) (netstrings (t ∷ ts) ++ (0 ∷ junk)) (pre ++ room) used nets w
        ≡ recv_loop order fuel
            (netstrings ts ++ (0 ∷ moved))
            ((pre ++ written) ++ later_room)
            (used + (length t + 1))
            (nets + 1)
            w
    recv_loop-netstring =
        recv_loop-round order fuel nets used (length (decimal (length t)) + length t + 2)
          (netstrings (t ∷ ts) ++ (0 ∷ junk)) read_buf (netstrings ts ++ (0 ∷ moved)) (pre ++ room)
          ((pre ++ written) ++ drop (length written) room) ((pre ++ written) ++ later_room) t
          (netstrings ts) w (head-whole t (netstrings ts) k.0.0 rest-Lacks k.0.1 small junk)
          (read_net-netstring t (netstrings ts) k.0.0 rest-Lacks k.0.1 small junk order 4095 used w
            (omega (arith, f.0)))
          (string_at-drop 0 read_buf t (drop (length t + 1) (netstrings (t ∷ ts) ++ (0 ∷ junk)))
            refl k.0.0)
          first second
          (string_at-drop (length (decimal (length t)) + length t + 2) read_buf (netstrings ts) junk
            (rest-string t (netstrings ts) k.0.0 rest-Lacks k.0.1 small junk) rest-Lacks)
          move

pub recv_loop-end :
    (order : Order) (fuel nets used : ℕ) (junk resp : Bytes) (w : World)
    → recv_loop order (suc fuel) (0 ∷ junk) resp used nets w ≡ ok (resp, nets) w
unfolding recv_loop
recv_loop-end order fuel nets used junk resp w = refl

-- The loop of `recvMessage` on netstrings, with texts received before.
pub recv_loop-netstrings :
    (order : Order) (fuel nets used : ℕ) (ts : List Bytes) (junk pre room : Bytes) (w : World)
    → AllText ts
    → Fits used ts
    → length ts < fuel
    → length pre ≡ used
    → length pre + length room ≡ bufsize
    → (left : Bytes) × (recv_loop order fuel (netstrings ts ++ (0 ∷ junk)) (pre ++ room) used nets w
        ≡ ok ((pre ++ packed ts) ++ left, nets + length ts) w)
      × (length (pre ++ packed ts) + length left ≡ bufsize)
recv_loop-netstrings order zero nets used ts junk pre room w k f enough pre_used all =
    absurd (omega arith)
recv_loop-netstrings order (suc fuel) nets used [] junk pre room w k f enough pre_used all =
    let none_more : nets + 0 ≡ nets = omega arith in
    (
      room,
      rw (append-nil, none_more) (recv_loop-end order fuel nets used junk (pre ++ room) w),
      rw append-nil all,
    )
recv_loop-netstrings order (suc fuel) nets used (t ∷ ts) junk pre room w k f enough pre_used all =
    let (left, e, whole) =
      recv_loop-netstrings order fuel (nets + 1) (used + (length t + 1)) ts
        (moved t ts used k f junk) (pre ++ (t ++ 0 ∷ []))
        (later_room t ts used k f junk order fuel nets pre room w pre_used all) w k.1 f.1
        (omega arith)
        (omega (arith, pre_used, length-append pre (t ++ 0 ∷ []), length-append t (0 ∷ [])))
        (later_all t ts used k f junk order fuel nets pre room w pre_used all) in
    let regroup : (pre ++ (t ++ 0 ∷ [])) ++ packed ts ≡ pre ++ packed (t ∷ ts) =
      append_assoc pre (t ++ 0 ∷ []) (packed ts)
      ∙ ap (λ s. pre ++ s) (append_assoc t (0 ∷ []) (packed ts)) in
    let counted : nets + 1 + length ts ≡ nets + length (t ∷ ts) = omega arith in
    (
      left,
      recv_loop-netstring t ts used k f junk order fuel nets pre room w pre_used all
          ∙ (rw (← regroup, ← counted) e),
      rw (← regroup) whole,
    )

-- The loop where a text has no room for its second copy.
pub recv_loop-crash :
    (order : Order) (fuel used nets next : ℕ) (buf buf₁ resp resp₁ text : Bytes) (w : World)
    → (get_or buf 0 0 == 0) ≡ false
    → read_net order bufsize buf used w ≡ ok (buf₁, some next) w
    → string_at buf₁ 0 ≡ some text
    → write_at used (text ++ 0 ∷ []) resp ≡ some resp₁
    → write_at (used + (length text + 1)) (text ++ 0 ∷ []) resp₁ ≡ none
    → recv_loop order (suc fuel) buf resp used nets w ≡ crash
unfolding recv_loop
recv_loop-crash order fuel used nets next buf buf₁ resp resp₁ text w head net at_start first
      second =
    rw (head, net) (rw (at_start, first) (rw second refl))
