-- ===== src/Ethstats/Tests.antt =====
-- A run of `assignment2` of assignment2/src/assignment2.c, and its theorems at that run.
use mathlib.Core.List.{Perm, Permᴰ}
use grnvs.Prelude.{
  ℕ, suc, ◌+◌, ◌-◌, ◌*◌, ◌/◌, ◌^◌, ◌≡◌, refl, true, none, some, List, [], ◌∷◌, ◌++◌, arith, ◌==◌,
  if◌then◌else◌, replicate,
}
use grnvs.Prelude.Int.{pos, negsuc}
use grnvs.Prelude.Run.{Run, ok, fault, out_of_fuel, Ends}
use grnvs.EthFrame.{Bytes, is_multicast, get_mac, macs_equal, get_type}
use grnvs.TypeInfo.{
  Ptr, Heap, Cmd, write, get_info_by_type, new_info, load, store, insert_info, set_next, min,
  remove_by_type, free,
}
use grnvs.TypeInfo.Seg.{Linked, SameOutside}
use grnvs.Ethstats.{
  Doubles, Reading, Line, ready, type_line, own_line, multicast_line, rates, count_type,
  assignment2, fill, seconds,
}
use grnvs.Netstring.Texts.{codes}
use grnvs.Args.{argument, option, ran}
use grnvs.Args.Strtol.{print_long}
use grnvs.Raw.{Statics, Answers, sock_raw, returned, grnvs_open, grnvs_close}
use grnvs.Ethstats.Main.{main, main-IsSummary}
use grnvs.Ethstats.Table.{Event, tally}
use grnvs.Ethstats.Heap.{count_type-tally}
use grnvs.Ethstats.Receive.{seen, Allocates}
use grnvs.Ethstats.Order.{assignment2-perm}
use grnvs.Ethstats.Laws.{IsSummary, assignment2-IsSummary}

-- Numbers in place of doubles.
abbrev plain : Doubles
plain = record {
  Double = ℕ;
  of_ℕ = λ n. n;
  nano = 0;
  add = ◌+◌;
  sub = ◌-◌;
  mul = ◌*◌;
  div = ◌/◌;
  pow = ◌^◌;
}

abbrev own : Bytes
own = 2 ∷ 0 ∷ 0 ∷ 0 ∷ 0 ∷ 9 ∷ []

abbrev own_frame : Bytes
own_frame = 2 ∷ 0 ∷ 0 ∷ 0 ∷ 0 ∷ 9 ∷ 4 ∷ 4 ∷ 4 ∷ 4 ∷ 4 ∷ 4 ∷ 0x86 ∷ 0xdd ∷ 0x60 ∷ []

abbrev arp_frame : Bytes
arp_frame = 255 ∷ 255 ∷ 255 ∷ 255 ∷ 255 ∷ 255 ∷ 4 ∷ 4 ∷ 4 ∷ 4 ∷ 4 ∷ 4 ∷ 0x08 ∷ 0x06 ∷ 0 ∷ 1 ∷ []

-- IPv6, ARP, IPv6, and then a timeout.
abbrev reads : ℕ → Reading
reads i = record {
  frame = if i == 1 then arp_frame else if i == 3 then [] else own_frame;
  start = record { tv_sec = i; tv_nsec = 0 };
  end = record { tv_sec = i + 1; tv_nsec = 0 };
  fresh = suc i;
}

abbrev empty : Heap
empty = λ _. none

reads-Allocates : Allocates reads empty
reads-Allocates = record {
  ne_null = λ i. ground arith;
  unused = λ i. refl;
  once = λ i j lt. omega arith;
}

abbrev printed : Run Heap (List (Line plain)) → List (Line plain)
printed (ok lines _) = lines
printed fault = []
printed out_of_fuel = []

prints :
    printed (assignment2 plain 9 own reads (pos 5) (replicate 20 0) empty)
    ≡ ready
      ∷ type_line 0x806 (pos 1) (pos 16)
      ∷ type_line 0x86dd (pos 2) (pos 30)
      ∷ own_line (pos 2)
      ∷ multicast_line (pos 1)
      ∷ rates plain 9 own 46 4
      ∷ []
unfolding assignment2 is_multicast get_mac macs_equal get_type write get_info_by_type new_info load
    store insert_info set_next min remove_by_type free fill seconds
prints = refl

assignment2-IsSummary_example :
    Ends
      (λ out g.
        IsSummary plain 9 own (seen plain reads 5 0 (replicate 20 0)) out
        × ((a : Ptr) → g a ≡ empty a))
      (assignment2 plain 9 own reads (pos 5) (replicate 20 0) empty)
assignment2-IsSummary_example =
    assignment2-IsSummary plain 9 own reads (pos 5) (replicate 20 0) empty reads-Allocates
      (omega arith)

count_type-tally_example :
    Ends
      (λ p g. Linked g p (tally 7 0x800 60 []) × SameOutside (tally 7 0x800 60 []) empty g)
      (count_type plain 1 7 0x800 60 0 empty)
count_type-tally_example =
    count_type-tally plain 1 empty 0 7 0x800 60 [] refl (ground arith) refl (omega arith)

abbrev arrival : Event
arrival = record { type = 0x800; len = 60; dest = own }

abbrev interface_answers : Answers
interface_answers = record {
  six = pos 4;
  four = pos 5;
  packet = pos 3;
  index = some (pos 2);
  hardware = some own;
  addresses = some [];
  bound = true;
}

abbrev no_socket : Statics
no_socket = record {
  ifindex = negsuc 0;
  write_six = negsuc 0;
  write_four = negsuc 0;
  mac = replicate 6 0;
  ip = replicate 4 0;
  ip6 = replicate 16 0;
}

abbrev one_socket : Statics
one_socket = record no_socket { ifindex = pos 2; mac = own }

main-IsSummary_example :
    (run : Cmd (List (Line plain))) × (main plain 9 reads
        (replicate 20 0)
        (argument (print_long (pos 5)) ∷ option b'i' (codes "lo") ∷ [])
        interface_answers
        no_socket
      ≡ ran (run, grnvs_close one_socket))
    × Ends
        (λ out g.
          IsSummary plain 9 own (seen plain reads 5 0 (replicate 20 0)) out
          × ((a : Ptr) → g a ≡ empty a))
        (run empty)
main-IsSummary_example =
    main-IsSummary plain 9 reads (replicate 20 0) (pos 5) (codes "lo") interface_answers no_socket
      one_socket (pos 3) empty (omega arith, omega arith) opened refl refl reads-Allocates
      (omega arith)
  where
    opened :
        grnvs_open (codes "lo") sock_raw interface_answers no_socket ≡ returned (pos 3, one_socket)
    opened = unfold grnvs_open in refl

-- The first two frames the other way round.
abbrev swapped : ℕ → Reading
swapped i = record (reads i) { frame = if i == 0 then arp_frame else own_frame }

swapped-Allocates : Allocates swapped empty
swapped-Allocates = record {
  ne_null = λ i. ground arith;
  unused = λ i. refl;
  once = λ i j lt. omega arith;
}

swapped-perm :
    Perm (seen plain reads 2 0 (replicate 20 0)) (seen plain swapped 2 0 (replicate 20 0))
unfolding seen get_type get_mac fill
swapped-perm = ∣ Permᴰ.swap refl refl ∣₁

assignment2-perm_example :
    (counts : List (Line plain)) × (total : ℕ) × (time time' : ℕ) × Ends
      (λ out _. out ≡ counts ++ rates plain 9 own total time ∷ [])
      (assignment2 plain 9 own reads (pos 2) (replicate 20 0) empty)
    × Ends
        (λ out _. out ≡ counts ++ rates plain 9 own total time' ∷ [])
        (assignment2 plain 9 own swapped (pos 2) (replicate 20 0) empty)
assignment2-perm_example =
    assignment2-perm plain 9 own reads swapped (pos 2) (pos 2) (replicate 20 0) (replicate 20 0)
      empty empty reads-Allocates swapped-Allocates (omega arith) (omega arith) swapped-perm
