-- ===== src/Jni/Tests.antt =====
-- The native methods of GRNVS_RAW.c on a plain model of the Java native interface.
use grnvs.Prelude.{
  ℕ, suc, ◌+◌, ◌≡◌, refl, arith, true, false, Option, none, some, [], ◌∷◌, ◌++◌, leb, if◌then◌else◌,
  length, drop, take, replicate, length-replicate,
}
use grnvs.Prelude.Int.{ℤ, pos, negsuc}
use grnvs.Memory.{Bytes, write_at}
use grnvs.Raw.{Statics, returned, count, to_six, grnvs_write, send_loop}
use grnvs.Checksum.{little, total}
use grnvs.Checksum.Laws.{rfc_checksum}
use grnvs.Jni.{JniEnv, copy_in, send_start, read, write, header_of, checksum}
use grnvs.Jni.Documented.{Documented}
use grnvs.Jni.Laws.{expected_write, write-expected}
use grnvs.Jni.Sums.{checksum-rfc_checksum}
use grnvs.Jni.Reading.{received, read-received}
use grnvs.Raw.Laws.{round, interrupted_rounds}

abbrev region : Bytes → ℤ → ℤ → Option Bytes
region array (pos start) (pos len) =
    if leb (start + len) (length array) then some (take len (drop start array)) else none
region array (pos start) (negsuc len) = none
region array (negsuc start) len = none

abbrev stored : Bytes → ℤ → ℤ → Bytes → Option Bytes
stored array (pos start) (pos len) buf =
    if leb (start + len) (length array)
    then some (take start array ++ (take len buf ++ drop (start + len) array))
    else none
stored array (pos start) (negsuc len) buf = none
stored array (negsuc start) len buf = none

abbrev plain : JniEnv
plain = record {
  get_region = region;
  set_region = stored;
  new_array = λ n. some (replicate n 0);
  get_timeout = λ timer. timer;
  set_timeout = λ timer timeout. timeout;
}

plain-Documented : Documented plain
plain-Documented = record {
  inside = λ array start len h. ground (arith, h);
  outside = λ array start len h. ground (arith, h);
  stored = λ array buf len h k. ground (arith, h);
  fresh = λ n array e. ground (arith, e);
}

abbrev socket : Statics
socket = record {
  ifindex = pos 2;
  write_six = negsuc 0;
  write_four = negsuc 0;
  mac = replicate 6 7;
  ip = replicate 4 0;
  ip6 = replicate 16 0;
}

abbrev layer3 : Statics
layer3 = record socket { write_six = pos 4; write_four = pos 5 }

-- Twenty bytes on a layer 3 socket: the address is read from the local array behind them.
write-expected_example :
    write plain (count 20 ∷ []) (replicate 1514 9) (replicate 40 96) (pos 20) layer3
    ≡ expected_write (count 20 ∷ []) (replicate 1514 9) (replicate 40 96) 20 layer3
write-expected_example =
    write-expected plain plain-Documented (count 20 ∷ []) (replicate 1514 9) (replicate 40 96) 20
      layer3

-- They are sent.
twenty_run :
    write plain (count 20 ∷ []) (replicate 1514 9) (replicate 40 96) (pos 20) layer3
    ≡ returned (
      record { value = pos 20; pending = false },
      some (to_six (replicate 16 9), replicate 20 96),
    )
unfolding write copy_in write_at send_start grnvs_write send_loop
twenty_run = refl

abbrev packet : Bytes
packet = replicate 14 0 ++ (96 ∷ replicate 39 1 ++ (128 ∷ 0 ∷ 0 ∷ 0 ∷ 5 ∷ []))

checksum-rfc_checksum_example :
    checksum plain little
      (suc (total little (header_of (take 40 (drop 14 packet))) (take 5 (drop 54 packet)) 5))
      (replicate 40 9)
      (replicate 2048 9)
      packet
      (pos 14)
      packet
      (pos 54)
      (pos 5)
    ≡ returned (
        some (record {
          value = rfc_checksum (header_of (take 40 (drop 14 packet))) (take 5 (drop 54 packet));
          pending = false;
        }))
checksum-rfc_checksum_example =
    checksum-rfc_checksum packet 14 packet 54 5 plain plain-Documented (replicate 40 9)
      (replicate 2048 9)
      (suc (total little (header_of (take 40 (drop 14 packet))) (take 5 (drop 54 packet)) 5))
      (replicate 2 0) refl (omega arith) (omega arith) (length-replicate {A = ℕ} 40 9)
      (length-replicate {A = ℕ} 2048 9) (omega arith) (omega arith)

-- A frame of 60 bytes comes behind one interrupted `read`, with 2 of 5 milliseconds left.
read-received_example :
    read plain true
      (interrupted_rounds ((0, 1000000) ∷ []) (round (count 60) (5000000, 2000000) ∷ []))
      (pos 0)
      (replicate 60 1)
      (replicate 80 7)
      (some (pos 5))
      socket
    ≡ returned (received (replicate 60 1) (replicate 80 7) (pos 2))
read-received_example =
    read-received plain plain-Documented (pos 5) 5 (pos 0) (replicate 60 1) (replicate 80 7) socket
      (5000000, 2000000) ((0, 1000000) ∷ []) [] refl refl (omega arith) (omega arith) (omega arith)
