-- ===== src/Netstring/MessageTests.antt =====
-- The theorems on readNet and recvMessage of assignment4.c at concrete replies.
use grnvs.Prelude.{
  ℕ, zero, suc, ◌+◌, ◌≡◌, ◌≢◌, ◌<◌, refl, List, [], map, ◌∷◌, ◌++◌, some, arith, length, drop,
  replicate, length-replicate, length-append,
}
use grnvs.Memory.{Bytes, index_of}
use grnvs.Memory.Strings.{Lacks-take, Lacks}
use grnvs.Decimal.{decimal}
use grnvs.Decimal.Laws.{count_digits-small}
use grnvs.Netstring.{
  bufsize, World, segment, failed, ok, exited, crash, out_of_fuel, assign_first, call_first,
  read_net, recv_message,
}
use grnvs.Netstring.Texts.{not_format, error_text}
use grnvs.Netstring.Start.{start}
use grnvs.Netstring.Write.{netstring, length-netstring}
use grnvs.Netstring.Accept.{taken}
use grnvs.Netstring.Glued.{read_net-glued}
use grnvs.Netstring.Stream.{recv_message-segments}
use grnvs.Netstring.Fragment.{read_net-closed, read_net-incomplete, read_net-timeout}
use grnvs.Netstring.Receive.{netstrings, packed}
use grnvs.Netstring.Messages.{
  stored, recv_message-netstrings, recv_message-overflow, recv_message-full,
}

abbrev hears : Bytes → World
hears bytes = record { replies = segment bytes ∷ []; sent = []; printed = [] }

abbrev done_world : World
done_world = record { replies = []; sent = []; printed = [] }

abbrev one : Bytes
one = b'a' ∷ []

abbrev four : Bytes
four = b'b' ∷ b'c' ∷ b'd' ∷ b'e' ∷ []

Lacks-replicate : (n c : ℕ) → c ≢ 0 → Lacks 0 (replicate n c)
Lacks-replicate zero c ne = tt
Lacks-replicate (suc n) c ne = (ne, Lacks-replicate n c ne)

pair-short : length (netstrings (one ∷ four ∷ [])) < bufsize
unfolding netstring decimal
pair-short = omega arith

recv_message-netstrings_example :
    (left : Bytes) × (recv_message assign_first 3 (hears (netstrings (one ∷ four ∷ [])))
      ≡ ok (packed (one ∷ four ∷ []) ++ left, some 2) done_world)
    × (length (packed (one ∷ four ∷ [])) + length left ≡ bufsize)
recv_message-netstrings_example =
    recv_message-netstrings assign_first 3 (one ∷ four ∷ []) (hears (netstrings (one ∷ four ∷ [])))
      [] refl ((omega arith, omega arith), ((omega arith, omega arith), tt))
      (omega arith, (omega arith, tt)) pair-short (omega arith)

netstring-short : (t : Bytes) → length t ≡ 2048 → length (netstring t) < bufsize
netstring-short t e =
    let size = length-netstring t (omega arith) in ground (arith, count_digits-small (length t))

recv_message-overflow_example :
    recv_message assign_first 1 (hears (netstring (replicate 2048 b'a'))) ≡ crash
recv_message-overflow_example =
    recv_message-overflow assign_first 0 (replicate 2048 b'a')
      (hears (netstring (replicate 2048 b'a'))) [] refl
      (Lacks-replicate 2048 b'a' (λ e. omega (arith, e)))
      (omega (arith, length-replicate {A = ℕ} 2048 b'a'))
      (netstring-short (replicate 2048 b'a') (length-replicate {A = ℕ} 2048 b'a'))

recv_message-full_example : recv_message assign_first 1 (hears (replicate 4096 b'a')) ≡ crash
recv_message-full_example =
    recv_message-full assign_first 0 (replicate 4096 b'a') (hears (replicate 4096 b'a')) [] refl
      (omega (arith, length-replicate {A = ℕ} 4096 b'a'))
      (Lacks-take 0 4096 (replicate 4096 b'a') (Lacks-replicate 4096 b'a' (λ e. omega (arith, e))))

-- A text of fifteen bytes in four segments.
abbrev parts : List Bytes
parts =
    (b'b' ∷ b'c' ∷ b'd' ∷ [])
    ∷ (b'e' ∷ b'f' ∷ b'g' ∷ [])
    ∷ (b'h' ∷ b'i' ∷ b'j' ∷ b'k' ∷ b'l' ∷ b'm' ∷ b'n' ∷ b'o' ∷ b',' ∷ [])
    ∷ []

abbrev fifteen : Bytes
fifteen =
    b'a' ∷ b'b' ∷ b'c' ∷ b'd' ∷ b'e' ∷ b'f' ∷ b'g' ∷ b'h' ∷ b'i' ∷ b'j' ∷ b'k' ∷ b'l' ∷ b'm' ∷ b'n'
    ∷ b'o' ∷ []

fifteen-Lacks : Lacks 0 fifteen
fifteen-Lacks = omega arith

abbrev in_parts : World
in_parts = record {
  replies = segment (start 15 one) ∷ (map segment parts ++ failed ∷ []);
  sent = [];
  printed = [];
}

recv_message-segments_example :
    recv_message assign_first 2 in_parts
    ≡ ok (stored fifteen, some 1) (record in_parts { replies = failed ∷ [] })
unfolding decimal
recv_message-segments_example =
    recv_message-segments assign_first 0 fifteen one parts in_parts (failed ∷ []) refl refl
      (ground arith) (ground arith) (fifteen-Lacks, omega arith) (omega arith)

-- The last two bytes come behind six: four of the six are taken a second time.
abbrev late : List Bytes
late = (b'b' ∷ b'c' ∷ b'd' ∷ b'e' ∷ b'f' ∷ b'g' ∷ []) ∷ (b'h' ∷ b',' ∷ []) ∷ []

abbrev thirteen : Bytes
thirteen =
    b'a' ∷ b'b' ∷ b'c' ∷ b'd' ∷ b'e' ∷ b'f' ∷ b'g' ∷ b'h' ∷ b',' ∷ b'd' ∷ b'e' ∷ b'f' ∷ b'g' ∷ []

thirteen-Lacks : Lacks 0 thirteen
thirteen-Lacks = omega arith

read_net-glued_example :
    read_net assign_first 3
      (start 13 one ++ (0 ∷ replicate 12 0))
      0
      (record { replies = map segment late; sent = []; printed = [] })
    ≡ ok (taken thirteen [] thirteen-Lacks tt [], some (length (decimal 13) + 13 + 2)) done_world
unfolding decimal
read_net-glued_example =
    read_net-glued thirteen [] one late (replicate 12 0) assign_first 3 0 8
      (record { replies = map segment late; sent = []; printed = [] }) [] thirteen-Lacks tt
      (omega arith) (omega arith) refl (unfold index_of in refl) (omega arith) refl (ground arith)
      (omega arith) (omega arith) (omega arith)

read_net-closed_example :
    read_net assign_first 1000 (start 5 one ++ (0 ∷ replicate 9 0)) 0 done_world ≡ out_of_fuel
unfolding decimal
read_net-closed_example =
    read_net-closed 5 one (replicate 9 0) (omega arith) assign_first 1000 0 done_world (omega arith)
      (omega arith) (omega arith) refl

read_net-incomplete_example :
    read_net call_first 1 (start 5 four ++ (0 ∷ replicate 4089 0)) 0 done_world
    ≡ exited (record done_world {
      sent = netstring (error_text not_format (start 5 four)) ∷ [];
      printed = drop 2 (error_text not_format (start 5 four)) ∷ [];
    })
unfolding decimal
read_net-incomplete_example =
    read_net-incomplete 5 four (replicate 4089 0) (omega arith) (omega arith) call_first 0 0
      done_world (omega arith) (omega arith) (omega arith)
      (omega (
        arith,
        length-append (start 5 four) (0 ∷ replicate 4089 0),
        length-replicate {A = ℕ} 4089 0,
      ))
      (unfold error_text in unfold not_format in omega arith)

abbrev silent : World
silent = record { replies = failed ∷ []; sent = []; printed = [] }

read_net-timeout_example :
    read_net call_first 1 (start 9 four ++ (0 ∷ replicate 4089 0)) 0 silent
    ≡ exited (record silent {
      replies = [];
      sent = netstring (error_text not_format (start 9 four)) ∷ [];
      printed = drop 2 (error_text not_format (start 9 four)) ∷ [];
    })
unfolding decimal
read_net-timeout_example =
    read_net-timeout 9 four (replicate 4089 0) (omega arith) (omega arith) call_first 0 0 silent []
      (omega arith) (omega arith) (omega arith) refl
      (omega (
        arith,
        length-append (start 9 four) (0 ∷ replicate 4089 0),
        length-replicate {A = ℕ} 4089 0,
      ))
      (unfold error_text in unfold not_format in omega arith)
