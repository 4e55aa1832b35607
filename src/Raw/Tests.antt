-- ===== src/Raw/Tests.antt =====
-- The theorems on raw.c at an interface with two IPv6 addresses.
use grnvs.Prelude.{
  ℕ, ◌+◌, ◌-◌, ◌*◌, ◌/◌, ◌≡◌, ◌≤◌, refl, arith, true, none, some, [], ◌∷◌, length, replicate,
  length-replicate,
}
use grnvs.Prelude.Int.{pos, negsuc}
use grnvs.Memory.{Bytes, str_equal}
use grnvs.Raw.{
  Statics, returned, is_global, inet6, sock_dgram, sock_raw, take_address, get_addresses, Answers,
  open_writers, open_interface, grnvs_open, interrupted, count, grnvs_read, grnvs_write,
  grnvs_close,
}
use grnvs.Raw.Addresses.{grnvs_open-opened}
use grnvs.Raw.Writing.{route_of, sent, grnvs_write-route_of}
use grnvs.Raw.Laws.{interrupted_rounds, round, grnvs_read-timeout, grnvs_write-reopened}

abbrev lo : Bytes
lo = b'l' ∷ b'o' ∷ []

abbrev global_address : Bytes
global_address = 0x20 ∷ 1 ∷ replicate 14 7

abbrev link_local : Bytes
link_local = 0xfe ∷ 0x80 ∷ replicate 14 0

abbrev answers : Answers
answers = record {
  six = pos 4;
  four = pos 5;
  packet = pos 3;
  index = some (pos 1);
  hardware = some (replicate 6 2);
  addresses = some (
      record { ifa_name = lo; ifa_addr = inet6 global_address }
      ∷ record { ifa_name = lo; ifa_addr = inet6 link_local }
      ∷ []);
  bound = true;
}

abbrev at_start : Statics
at_start = record {
  ifindex = negsuc 0;
  write_six = negsuc 0;
  write_four = negsuc 0;
  mac = replicate 6 0;
  ip = replicate 4 0;
  ip6 = replicate 16 0;
}

abbrev opened : Statics
opened = record {
  ifindex = pos 1;
  write_six = pos 4;
  write_four = pos 5;
  mac = replicate 6 2;
  ip = replicate 4 0;
  ip6 = global_address;
}

abbrev opened_again : Statics
opened_again = record opened { ip6 = link_local }

run_open : grnvs_open lo sock_dgram answers at_start ≡ returned (pos 3, opened)
unfolding grnvs_open open_writers open_interface get_addresses take_address is_global str_equal
run_open = refl

run_open_again :
    grnvs_open lo sock_raw answers (grnvs_close opened) ≡ returned (pos 3, opened_again)
unfolding grnvs_open open_writers open_interface get_addresses take_address is_global str_equal
    grnvs_close
run_open_again = refl

abbrev ethernet : Bytes
ethernet = replicate 60 0xff

ethernet-length : 40 ≤ length ethernet
ethernet-length = omega (arith, length-replicate {A = ℕ} 60 0xff)

grnvs_read-timeout_example :
    grnvs_read
      (interrupted_rounds ((5, 2500000) ∷ []) (round (count 42) (9000000, 1000000) ∷ []))
      (negsuc 7)
      (some 10)
      opened
    ≡ returned (pos 42, some ((10 * 1000000 - (2500000 + 0 + 1000000)) / 1000000))
grnvs_read-timeout_example =
    grnvs_read-timeout 10 42 (negsuc 7) opened (9000000, 1000000) ((5, 2500000) ∷ []) [] refl
      (omega arith) (omega arith) (omega arith)

grnvs_open-opened_example : grnvs_open lo sock_dgram answers at_start ≡ returned (pos 3, opened)
unfolding is_global str_equal
grnvs_open-opened_example =
    grnvs_open-opened lo sock_dgram answers (pos 1) (replicate 6 2)
      (record { ifa_name = lo; ifa_addr = inet6 global_address }
        ∷ record { ifa_name = lo; ifa_addr = inet6 link_local }
        ∷ [])
      at_start (omega arith) (refl, refl, refl) refl refl refl refl

abbrev ipv6 : Bytes
ipv6 = 0x60 ∷ replicate 47 5

ipv6-length : 40 ≤ length ipv6
ipv6-length = omega (arith, length-replicate {A = ℕ} 47 5)

grnvs_write-route_of_example :
    grnvs_write (interrupted ∷ interrupted ∷ count 48 ∷ []) ipv6 opened
    ≡ sent 48 (route_of sock_dgram ipv6)
grnvs_write-route_of_example =
    grnvs_write-route_of lo sock_dgram answers 2 48 [] ipv6 at_start opened (pos 3) refl run_open
      refl ipv6-length

grnvs_write-reopened_example :
    grnvs_write (count 60 ∷ []) ethernet opened_again ≡ returned (negsuc 21, none)
grnvs_write-reopened_example =
    grnvs_write-reopened lo answers (count 60 ∷ []) ethernet opened opened_again (pos 3) refl
      run_open_again refl ethernet-length (λ e. omega (arith, e)) (λ e. omega (arith, e))
