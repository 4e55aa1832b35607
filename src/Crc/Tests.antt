-- ===== src/Crc/Tests.antt =====
-- The CRC of crc.c at concrete answers of the kernel.
use grnvs.Prelude.{◌≡◌, refl, true, some, [], ◌∷◌}
use grnvs.Prelude.Int.{pos, negsuc}
use grnvs.Checksum.{little}
use grnvs.Raw.{returned, exited}
use grnvs.Crc.{Kernel, get_crc_sock, feed, get_crc32}

abbrev kernel : Kernel
kernel = record {
  socket = pos 4;
  bind = true;
  set_key = true;
  accept = pos 5;
  send = true;
  recv = λ frame. some (1 ∷ 2 ∷ 0 ∷ 0 ∷ []);
}

whole_run : get_crc32 little (9 ∷ 9 ∷ 9 ∷ 9 ∷ []) kernel [] ≡ returned (513, pos 4 ∷ pos 5 ∷ [])
unfolding get_crc32 get_crc_sock feed
whole_run = refl

-- A short answer leaves the rest of the number as it was.
short_run :
    get_crc32 little (9 ∷ 9 ∷ 9 ∷ 9 ∷ []) (record kernel { recv = λ frame. some (1 ∷ []) }) []
    ≡ returned (151587073, pos 4 ∷ pos 5 ∷ [])
unfolding get_crc32 get_crc_sock feed
short_run = refl

no_socket_run : get_crc32 little [] (record kernel { socket = negsuc 0 }) [] ≡ exited
unfolding get_crc32 get_crc_sock feed
no_socket_run = refl
