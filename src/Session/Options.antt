-- ===== src/Session/Options.antt =====
-- assignment4/src/assignment4.c, lines 34 to 78: `parse_ip` and `set_socket_options`. `assignment4` takes a
-- negative result of the first as its only failure, and does not look at the result of the second.
use grnvs.Prelude.{◌≡◌, refl, arith, Bool, true, false, ◌&&◌, List, [], ◌∷◌, if◌then◌else◌}
use grnvs.Prelude.Int.{ℤ, pos, negsuc, ◌-ℤ◌}
use grnvs.Raw.{negative}

-- `parse_ip`, from the result of `inet_pton`
unfoldable parse_ip : ℤ → ℤ
parse_ip inet_pton = inet_pton -ℤ pos 1

-- The options that `set_socket_options` sets, and whether the kernel takes each.
data SocketOption : Type 0 where
  receive_timeout send_timeout : (seconds : ℤ) → SocketOption
  reuse_address : SocketOption

-- One `setsockopt`, and what follows a success; a failure is reported and returns -1.
unfoldable set_then :
    (SocketOption → Bool) → SocketOption → ℤ × List SocketOption → ℤ × List SocketOption
set_then setsockopt option rest =
    if setsockopt option then (rest.0, option ∷ rest.1) else (negsuc 0, [])

-- `set_socket_options`: the result, and the options that were set.
unfoldable set_socket_options : (SocketOption → Bool) → (timeout : ℤ) → ℤ × List SocketOption
unfolding set_then
set_socket_options setsockopt timeout =
    set_then setsockopt (receive_timeout timeout)
      (set_then setsockopt (send_timeout timeout) (set_then setsockopt reuse_address (pos 0, [])))

-- Of the results 1, 0 and -1 of `inet_pton` only 1 is not negative behind `parse_ip`.
parse_ip-one : negative (parse_ip (pos 1)) ≡ false
unfolding parse_ip
parse_ip-one = unfold ◌-ℤ◌ in refl

parse_ip-zero : negative (parse_ip (pos 0)) ≡ true
unfolding parse_ip
parse_ip-zero = unfold ◌-ℤ◌ in refl

-- The result is 0 just where all three options are set.
set_socket_options-all :
    (setsockopt : SocketOption → Bool) (timeout : ℤ)
    → (set_socket_options setsockopt timeout).0 ≡ (
        if setsockopt (receive_timeout timeout)
          && setsockopt (send_timeout timeout)
          && setsockopt reuse_address
        then pos 0
        else negsuc 0)
unfolding set_socket_options
set_socket_options-all setsockopt timeout = ground arith
