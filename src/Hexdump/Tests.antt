-- ===== src/Hexdump/Tests.antt =====
-- hexdump2 on a few bytes, and its theorem there.
use grnvs.Prelude.{arith, ◌≡◌, refl, some, [], ◌∷◌, ◌++◌, length}
use grnvs.Memory.{Bytes, zeros, write_at}
use grnvs.Memory.Strings.{length-zeros}
use grnvs.Hexdump.{str_size, hexdump2, dump_byte, put, put_newline, hex_loop, hex_digit}
use grnvs.Hexdump.Laws.{hexdump2-inside}
use grnvs.Hexdump.Rows.{rows, hex_bytes}
use grnvs.Hexdump.Buffer.{hexdump2-rows}

abbrev packet : Bytes
packet = 0x60 ∷ 0xff ∷ 7 ∷ []

byte_text :
    dump_byte 0 0x60 (zeros 24, 0)
    ≡ some (
      (b'>' ∷ b'>' ∷ b' ' ∷ b'0' ∷ b'0' ∷ b'0' ∷ b'0' ∷ b':' ∷ b' ' ∷ b' ' ∷ b'6' ∷ b'0' ∷ b' '
            ∷ [])
          ++ zeros 11,
      13,
    )
unfolding dump_byte put put_newline hex_loop hex_digit write_at zeros
byte_text = refl

hexdump2-inside_example :
    (str' : Bytes) × (hexdump2 packet 3 (zeros 65536) ≡ some str') × (length str' ≡ str_size)
hexdump2-inside_example = hexdump2-inside packet 3 (zeros 65536) (length-zeros 65536)

-- Twenty bytes are two rows.
abbrev frame : Bytes
frame = 0 ∷ 1 ∷ 2 ∷ 3 ∷ 4 ∷ 5 ∷ 6 ∷ 7 ∷ 8 ∷ 9 ∷ 10 ∷ 11 ∷ 12 ∷ 13 ∷ 14 ∷ 15 ∷ 254 ∷ 17 ∷ 18 ∷ []

hexdump2-rows_example :
    (junk : Bytes) × (hexdump2 (255 ∷ (frame ++ packet)) 20 (zeros 65536)
      ≡ some (rows 20 0 (255 ∷ frame) ++ (0 ∷ junk)))
hexdump2-rows_example =
    hexdump2-rows 255 frame packet (zeros 65536) (ground arith) (omega arith) (length-zeros 65536)

-- >> 0000:  00 01 02 03 04 05 06 07   08 09 0a 0b 0c 0d 0e 0f
-- >> 0010:  ff
two_rows :
    rows 17 0 (0 ∷ 1 ∷ 2 ∷ 3 ∷ 4 ∷ 5 ∷ 6 ∷ 7 ∷ 8 ∷ 9 ∷ 10 ∷ 11 ∷ 12 ∷ 13 ∷ 14 ∷ 15 ∷ 255 ∷ [])
    ≡ b'>' ∷ b'>' ∷ b' ' ∷ b'0' ∷ b'0' ∷ b'0' ∷ b'0' ∷ b':' ∷ b' ' ∷ b' ' ∷ b'0' ∷ b'0' ∷ b' '
      ∷ b'0' ∷ b'1' ∷ b' ' ∷ b'0' ∷ b'2' ∷ b' ' ∷ b'0' ∷ b'3' ∷ b' ' ∷ b'0' ∷ b'4' ∷ b' ' ∷ b'0'
      ∷ b'5' ∷ b' ' ∷ b'0' ∷ b'6' ∷ b' ' ∷ b'0' ∷ b'7' ∷ b' ' ∷ b' ' ∷ b' ' ∷ b'0' ∷ b'8' ∷ b' '
      ∷ b'0' ∷ b'9' ∷ b' ' ∷ b'0' ∷ b'a' ∷ b' ' ∷ b'0' ∷ b'b' ∷ b' ' ∷ b'0' ∷ b'c' ∷ b' ' ∷ b'0'
      ∷ b'd' ∷ b' ' ∷ b'0' ∷ b'e' ∷ b' ' ∷ b'0' ∷ b'f' ∷ b' ' ∷ b' ' ∷ b' ' ∷ 10 ∷ b'>' ∷ b'>'
      ∷ b' ' ∷ b'0' ∷ b'0' ∷ b'1' ∷ b'0' ∷ b':' ∷ b' ' ∷ b' ' ∷ b'f' ∷ b'f' ∷ b' ' ∷ []
unfolding rows hex_bytes hex_loop hex_digit
two_rows = refl
