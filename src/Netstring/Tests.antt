-- ===== src/Netstring/Tests.antt =====
-- The theorems on netstrings of assignment4.c at concrete messages.
use grnvs.Prelude.{◌≡◌, ◌+◌, refl, [], ◌∷◌, ◌++◌, some, arith, length, drop, replicate}
use grnvs.Memory.{Bytes}
use grnvs.Memory.Strings.{Lacks}
use grnvs.Decimal.{decimal, atol, count_digits, digits_loop, count_loop}
use grnvs.Decimal.Laws.{atol-decimal}
use grnvs.Netstring.{World, ok, assign_first, call_first, send_message, read_net, check_message}
use grnvs.Netstring.Checked.{Checked, check_message-Checked}
use grnvs.Netstring.Write.{netstring, send_message_lem}
use grnvs.Netstring.Read.{read_net-netstring}

abbrev quiet : World
quiet = record { replies = []; sent = []; printed = [] }

abbrev hello : Bytes
hello = b'C' ∷ b' ' ∷ b'H' ∷ b'I' ∷ []

abbrev reply : Bytes
reply = b'T' ∷ b' ' ∷ b'4' ∷ b'2' ∷ []

abbrev long_text : Bytes
long_text = replicate 5000 b'a'

netstring-hello : netstring hello ≡ b'4' ∷ b':' ∷ (hello ++ b',' ∷ [])
unfolding netstring decimal digits_loop
netstring-hello = refl

digits_run : count_digits 4096 ≡ 4
unfolding count_digits count_loop
digits_run = refl

atol-decimal_example : atol (decimal 4095) ≡ 4095
atol-decimal_example = atol-decimal 4095 (omega arith)

send_message_lem_example :
    send_message call_first hello quiet ≡ ok tt (record quiet { sent = netstring hello ∷ [] })
send_message_lem_example = send_message_lem call_first hello quiet

abbrev behind : Bytes
behind = b'4' ∷ b':' ∷ (reply ++ b',' ∷ [])

hello-Lacks : Lacks 0 hello
hello-Lacks = (
  λ e. omega (arith, e),
  (λ e. omega (arith, e), (λ e. omega (arith, e), (λ e. omega (arith, e), tt))),
)

behind-Lacks : Lacks 0 behind
behind-Lacks = (
  λ e. omega (arith, e),
  (
    λ e. omega (arith, e),
    (
      λ e. omega (arith, e),
      (
        λ e. omega (arith, e),
        (λ e. omega (arith, e), (λ e. omega (arith, e), (λ e. omega (arith, e), tt))),
      ),
    ),
  ),
)

read_net-netstring_example :
    read_net assign_first 1 ((netstring hello ++ behind) ++ (0 ∷ [])) 0 quiet
    ≡ ok
        (
          hello ++ (0 ∷ drop 5 ((netstring hello ++ behind) ++ (0 ∷ []))),
          some (length (decimal 4) + 4 + 2),
        )
        quiet
read_net-netstring_example =
    read_net-netstring hello behind hello-Lacks behind-Lacks (omega arith) (omega arith) []
      assign_first 0 0 quiet (omega arith)

-- A message in front of the end of a buffer of 4096 bytes.
abbrev in_buffer : Bytes
in_buffer = reply ++ replicate 4092 0

check_message-Checked_example :
    Checked hello in_buffer quiet (check_message assign_first hello in_buffer quiet)
check_message-Checked_example = check_message-Checked assign_first hello in_buffer quiet
