-- ===== src/Netstring/Checked.antt =====
-- checkMessage of assignment4.c: everything that a call can do.
use grnvs.Prelude.{
  ◌≡◌, ◌≢◌, ◌≤◌, ◌<◌, ◌⊎◌, ◌&&◌, ◌∙◌, sym, ap, none, some, false, Option-cases, refl, arith, true,
  [], ◌∷◌, ◌++◌, ◌==◌, ==_iff, leb, length, drop, get_or, Bool-cases, inl, inr,
}
use grnvs.Memory.{Bytes, string_at, zeros, str_equal}
use grnvs.Memory.Strings.{str_equal_iff, write_at-start, write_at-none, length-zeros}
use grnvs.Netstring.{
  bufsize, World, Outcome, ok, exited, crash, Order, print, refuse, check_message,
}
use grnvs.Netstring.Texts.{error_text}
use grnvs.Netstring.Write.{netstring, send_message-crash}
use grnvs.Netstring.Check.{check_message-refuse, check_message-refuses, check_message-same}

-- What `checkMessage(fd, expected, actual)` does, where `memory` is what there is from `actual` on to
-- the end of its buffer.
pub data Checked (expected memory : Bytes) (w : World) : Outcome (Unit {0}) → Type 0 where
  -- There is no string at `actual`.
  unterminated : string_at memory 0 ≡ none → Checked expected memory w crash
  -- Of an error message of the server the string at `actual + 2` is printed. For a message of one byte
  -- that is what stands behind its 0 byte,
  reported :
      (actual text : Bytes)
      → string_at memory 0 ≡ some actual
      → get_or actual 0 0 ≡ b'E'
      → string_at memory 2 ≡ some text
      → Checked expected memory w (ok tt (record w { printed = w.printed ++ text ∷ [] }))
  -- and the buffer is left if there is none.
  unreported :
      (actual : Bytes)
      → string_at memory 0 ≡ some actual
      → get_or actual 0 0 ≡ b'E'
      → string_at memory 2 ≡ none
      → Checked expected memory w crash
  -- The expected message passes.
  passed :
      string_at memory 0 ≡ some expected
      → get_or expected 0 0 ≢ b'E'
      → Checked expected memory w (ok tt w)
  -- Another message is refused: an error message is sent and printed, and the process ends.
  refused :
      (actual : Bytes)
      → string_at memory 0 ≡ some actual
      → get_or actual 0 0 ≢ b'E'
      → expected ≢ actual
      → bufsize ≤ length memory
      → length (error_text expected actual) ≤ 4089
      → Checked expected memory w (
          exited (record w {
            sent = w.sent ++ netstring (error_text expected actual) ∷ [];
            printed = w.printed ++ drop 2 (error_text expected actual) ∷ [];
          }))
  -- The error message leaves a buffer: its own, or the one of the message.
  overflowed :
      (actual : Bytes)
      → string_at memory 0 ≡ some actual
      → get_or actual 0 0 ≢ b'E'
      → expected ≢ actual
      → (length memory < bufsize) ⊎ (4090 ≤ length (error_text expected actual))
      → Checked expected memory w crash

module _ (order : Order) (expected memory : Bytes) (w : World) where
  check_message-report :
      (actual text : Bytes)
      → string_at memory 0 ≡ some actual
      → (get_or actual 0 0 == b'E') ≡ true
      → string_at memory 2 ≡ some text
      → check_message order expected memory w
        ≡ ok tt (record w { printed = w.printed ++ text ∷ [] })
  unfolding check_message print
  check_message-report actual text there e behind = rw (there, e, behind) refl

  check_message-unreported :
      (actual : Bytes)
      → string_at memory 0 ≡ some actual
      → (get_or actual 0 0 == b'E') ≡ true
      → string_at memory 2 ≡ none
      → check_message order expected memory w ≡ crash
  unfolding check_message
  check_message-unreported actual there e behind = rw (there, e, behind) refl

  check_message-unterminated :
      string_at memory 0 ≡ none → check_message order expected memory w ≡ crash
  unfolding check_message
  check_message-unterminated there = rw there refl

refuse-crash :
    (order : Order) (errmsg memory : Bytes) (w : World)
    → (length memory < bufsize) ⊎ (4090 ≤ length errmsg)
    → refuse order errmsg memory w ≡ crash
unfolding refuse
refuse-crash order errmsg memory w h = elim (Bool-cases (leb (length (errmsg ++ 0 ∷ [])) 4096)) [
  | inr over ↦
      rw (write_at-none 0 (errmsg ++ 0 ∷ []) (zeros bufsize) (ground (arith, length-zeros bufsize)))
        refl
  | inl fits ↦ elim (Bool-cases (leb bufsize (length memory))) [
    | inr small ↦
        rw
          (
            write_at-start (errmsg ++ 0 ∷ []) (zeros bufsize)
                (ground (arith, length-zeros bufsize)),
            write_at-none 0 (zeros bufsize) memory (ground (arith, length-zeros bufsize)),
          )
          refl
    | inl whole ↦
        rw
          (
            write_at-start (errmsg ++ 0 ∷ []) (zeros bufsize)
                (ground (arith, length-zeros bufsize)),
            write_at-start (zeros bufsize) memory (ground (arith, length-zeros bufsize)),
            send_message-crash order errmsg w (ground arith),
          )
          refl
  ]
]

module _ (order : Order) (expected actual memory : Bytes) (w : World)
    (there : string_at memory 0 ≡ some actual) where
  error-Checked :
      get_or actual 0 0 ≡ b'E' → Checked expected memory w (check_message order expected memory w)
  error-Checked e =
      let error : (get_or actual 0 0 == b'E') ≡ true = (==_iff (get_or actual 0 0) b'E').1 e in
      elim (Option-cases (string_at memory 2)) [
        | inl nothing ↦
            rw (check_message-unreported order expected memory w actual there error nothing)
              (unreported actual there e nothing)
        | inr (text, behind) ↦
            rw (check_message-report order expected memory w actual text there error behind)
              (reported actual text there e behind)
      ]

  other-Checked :
      get_or actual 0 0 ≢ b'E'
      → (get_or actual 0 0 == b'E') ≡ false
      → str_equal expected actual ≡ false
      → expected ≢ actual
      → Checked expected memory w (check_message order expected memory w)
  other-Checked not_error no_error differs other =
      let errmsg = error_text expected actual in
      elim (Bool-cases (leb (length errmsg) 4089 && leb bufsize (length memory))) [
        | inl room ↦
            rw
              (check_message-refuses order expected actual memory w there (ground arith) not_error
                other (ground arith))
              (refused actual there not_error other (ground arith) (ground arith))
        | inr tight ↦
            let over : (length memory < bufsize) ⊎ (4090 ≤ length errmsg) = ground arith in
            rw
              (
                check_message-refuse order expected actual memory w there no_error differs,
                refuse-crash order errmsg memory w over,
              )
              (overflowed actual there not_error other over)
      ]

  string-Checked : Checked expected memory w (check_message order expected memory w)
  string-Checked = elim (Bool-cases (get_or actual 0 0 == b'E')) [
    | inl error ↦ error-Checked ((==_iff (get_or actual 0 0) b'E').0 error)
    | inr no_error ↦
        let not_error : get_or actual 0 0 ≢ b'E' = λ e. ground (arith, e, no_error) in
        elim (Bool-cases (str_equal expected actual)) [
          | inl same ↦
              let equal : actual ≡ expected = sym ((str_equal_iff expected actual).0 same) in
              let here : string_at memory 0 ≡ some expected = there ∙ ap some equal in
              let ne : get_or expected 0 0 ≢ b'E' = λ e. not_error (rw equal e) in
              rw (check_message-same order expected memory w here ne) (passed here ne)
          | inr differs ↦
              other-Checked not_error no_error differs
                (λ e. ground (arith, (str_equal_iff expected actual).1 e, differs))
        ]
  ]

-- For a message in a buffer, a call of `checkMessage` prints what stands behind the first two bytes of
-- an error message of the server, passes the expected message, and for any other message sends and
-- prints an error message of its own and ends the process. It leaves a buffer just if the message or
-- what is to be printed does not end in it, or if that error message has 4090 bytes or more, or if
-- there are less than 4096 bytes from the message on to the end of its buffer, which it clears.
pub check_message-Checked :
    (order : Order) (expected memory : Bytes) (w : World)
    → Checked expected memory w (check_message order expected memory w)
check_message-Checked order expected memory w = elim (Option-cases (string_at memory 0)) [
  | inl nothing ↦
      rw (check_message-unterminated order expected memory w nothing) (unterminated nothing)
  | inr (actual, there) ↦ string-Checked order expected actual memory w there
]
