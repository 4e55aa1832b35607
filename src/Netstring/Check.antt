-- ===== src/Netstring/Check.antt =====
-- checkMessage of assignment4.c: what passes, and what a refused message causes.
use grnvs.Prelude.{
  some, ◌≡◌, ◌≢◌, ◌≤◌, refl, arith, false, [], ◌∷◌, ◌++◌, ◌==◌, ==_ne, length, length-append, drop,
  get_or, Bool-cases, inl, inr, ◌∙◌,
}
use grnvs.Memory.{Bytes, string_at, zeros, str_equal}
use grnvs.Memory.Strings.{str_equal_iff, write_at-start, length-zeros}
use grnvs.Netstring.{bufsize, World, ok, exited, Order, print, refuse, check_message}
use grnvs.Netstring.Texts.{error_text}
use grnvs.Netstring.Write.{netstring, send_message-netstring}

pub check_message-refuse :
    (order : Order) (expected actual memory : Bytes) (w : World)
    → string_at memory 0 ≡ some actual
    → (get_or actual 0 0 == b'E') ≡ false
    → str_equal expected actual ≡ false
    → check_message order expected memory w ≡ refuse order (error_text expected actual) memory w
unfolding check_message
check_message-refuse order expected actual memory w there h k = rw (there, h, k) refl

refuse-exits :
    (order : Order) (errmsg memory : Bytes) (w : World)
    → bufsize ≤ length memory
    → length errmsg ≤ 4089
    → refuse order errmsg memory w
      ≡ exited (record w {
        sent = w.sent ++ netstring errmsg ∷ [];
        printed = w.printed ++ drop 2 errmsg ∷ [];
      })
unfolding refuse print
refuse-exits order errmsg memory w whole room =
    rw
      (
        write_at-start (errmsg ++ 0 ∷ []) (zeros bufsize)
            (omega (arith, length-append errmsg (0 ∷ []), length-zeros bufsize)),
        write_at-start (zeros bufsize) memory (omega (arith, whole, length-zeros bufsize)),
        send_message-netstring order errmsg w room,
      )
      refl

-- Any other message that leaves room in the buffers ends the process: the error message has been
-- sent as a netstring and printed, without its first two bytes. From the message on its buffer must
-- have 4096 bytes.
pub check_message-refuses :
    (order : Order) (expected actual memory : Bytes) (w : World)
    → string_at memory 0 ≡ some actual
    → bufsize ≤ length memory
    → get_or actual 0 0 ≢ b'E'
    → expected ≢ actual
    → length (error_text expected actual) ≤ 4089
    → check_message order expected memory w
      ≡ exited (record w {
        sent = w.sent ++ netstring (error_text expected actual) ∷ [];
        printed = w.printed ++ drop 2 (error_text expected actual) ∷ [];
      })
check_message-refuses order expected actual memory w there whole not_error other room =
    let errmsg = error_text expected actual in
    let differs : str_equal expected actual ≡ false =
      elim (Bool-cases (str_equal expected actual)) [
        | inl same ↦ absurd (other ((str_equal_iff expected actual).0 same))
        | inr differs ↦ differs
      ] in
    check_message-refuse order expected actual memory w there
      (==_ne (get_or actual 0 0) b'E' not_error) differs
    ∙ refuse-exits order errmsg memory w whole room

-- The expected message passes, and nothing is printed, unless it begins with E.
pub check_message-same :
    (order : Order) (t memory : Bytes) (w : World)
    → string_at memory 0 ≡ some t
    → get_or t 0 0 ≢ b'E'
    → check_message order t memory w ≡ ok tt w
unfolding check_message
check_message-same order t memory w there h =
    rw (there, ==_ne (get_or t 0 0) b'E' h, (str_equal_iff t t).1 refl) refl
