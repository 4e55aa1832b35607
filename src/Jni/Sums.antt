-- ===== src/Jni/Sums.antt =====
-- The native method of GRNVS_RAW.c that computes a checksum, against RFC 1071.
use grnvs.Prelude.{
  ℕ, zero, suc, ◌+◌, ◌≡◌, ◌<◌, ◌≤◌, refl, arith, false, some, [], ◌∷◌, ◌++◌, length, length-drop,
  length-take, drop, take, replicate, length-replicate, inl, ap, ◌∙◌, sym, append-nil,
}
use grnvs.Prelude.Int.{pos}
use grnvs.Memory.{Bytes}
use grnvs.Memory.Strings.{take_all}
use grnvs.Raw.{returned}
use grnvs.Checksum.{little, Ip6Hdr, total, icmp6_checksum}
use grnvs.Checksum.Sums.{IsHdr}
use grnvs.Checksum.Prefix.{icmp6_checksum-append}
use grnvs.Checksum.Laws.{rfc_checksum, icmp6_checksum-rfc_checksum}
use grnvs.Jni.{JniEnv, copy_in, array_of, header_of, checksum}
use grnvs.Jni.Documented.{Documented}
use grnvs.Jni.Laws.{copy_in-inside, start_of-copied}

drop-all : (n : ℕ) (s : Bytes) → length s ≡ n → drop n s ≡ []
drop-all zero [] e = refl
drop-all zero (b ∷ s) e = absurd (omega (arith, e))
drop-all (suc n) [] e = refl
drop-all (suc n) (b ∷ s) e = drop-all n s (omega (arith, e))

-- `array_of` on bytes that are there
array_of-filled :
    (env : JniEnv) (n : ℕ) (bytes array : Bytes)
    → Documented env
    → env.new_array n ≡ some array
    → length bytes ≡ n
    → array_of env false n (some bytes)
      ≡ returned (some (record { value = bytes; pending = false }))
unfolding array_of
array_of-filled env n bytes array d new e =
    let zeroed = replicate n 0 in
    let size : length zeroed ≡ n = length-replicate n 0 in
    let filled : env.set_region zeroed (pos 0) (pos n) bytes ≡ some bytes =
      d.stored zeroed bytes n (omega (arith, size)) (omega (arith, e))
      ∙ ap some
          (rw (take_all n bytes (omega (arith, e)), drop-all n zeroed size) (append-nil bytes)) in
    let given : env.new_array n ≡ some zeroed = new ∙ ap some (d.fresh n array new) in
    rw (given, array_of) (rw filled refl)

rfc_checksum-length : (hdr : Ip6Hdr) (payload : Bytes) → length (rfc_checksum hdr payload) ≡ 2
unfolding rfc_checksum
rfc_checksum-length hdr payload = refl

-- The 40 bytes of a header in an array, and the payload in another one.
module _ (hdr : Bytes) (hdr_offset : ℕ) (payload : Bytes) (payload_offset len : ℕ) where
  abbrev pub header_bytes : Bytes
  header_bytes = take 40 (drop hdr_offset hdr)

  abbrev pub payload_bytes : Bytes
  payload_bytes = take len (drop payload_offset payload)

  header_bytes-length : hdr_offset + 40 ≤ length hdr → length header_bytes ≡ 40
  header_bytes-length h =
      length-take 40 (drop hdr_offset hdr) (omega (arith, length-drop hdr_offset hdr, h))

  payload_bytes-length : payload_offset + len ≤ length payload → length payload_bytes ≡ len
  payload_bytes-length h =
      length-take len (drop payload_offset payload)
        (omega (arith, length-drop payload_offset payload, h))

  header-IsHdr : hdr_offset + 40 ≤ length hdr → IsHdr (header_of header_bytes)
  header-IsHdr h =
      let size = header_bytes-length h in
      record {
        src =
            length-take 16 (drop 8 header_bytes) (omega (arith, length-drop 8 header_bytes, size));
        dst =
            length-take 16 (drop 24 header_bytes)
              (omega (arith, length-drop 24 header_bytes, size));
      }

  module _ (env : JniEnv) (d : Documented env) (hdrbuffer payloadbuffer : Bytes) where
    header-copied :
        hdr_offset + 40 ≤ length hdr
        → length hdrbuffer ≡ 40
        → copy_in env hdr (pos hdr_offset) (pos 40) hdrbuffer ≡ some (header_bytes, false)
    header-copied h e =
        copy_in-inside env d hdr hdr_offset 40 hdrbuffer h (omega (arith, e))
        ∙ ap (λ s. some (header_bytes ++ s, false)) (drop-all 40 hdrbuffer e)
        ∙ ap (λ s. some (s, false)) (append-nil header_bytes)

    -- `checksum_` on a little-endian machine, for a header of 40 bytes inside its array and a payload
    -- inside its array and of at most 2048 bytes, returns a new Java array with the checksum field of
    -- RFC 1071 for the addresses of that header and that payload. The functions of the Java native
    -- interface on array regions do as documented, and `NewByteArray` gives an array of two bytes. The
    -- carry loop has more fuel than the sum.
    pub checksum-rfc_checksum :
        (fuel : ℕ) (array : Bytes)
        → env.new_array 2 ≡ some array
        → hdr_offset + 40 ≤ length hdr
        → payload_offset + len ≤ length payload
        → length hdrbuffer ≡ 40
        → length payloadbuffer ≡ 2048
        → len ≤ 2048
        → total little (header_of header_bytes) payload_bytes len < fuel
        → checksum env little fuel hdrbuffer payloadbuffer hdr
            (pos hdr_offset)
            payload
            (pos payload_offset)
            (pos len)
          ≡ returned (
              some (record {
                value = rfc_checksum (header_of header_bytes) payload_bytes;
                pending = false;
              }))
    unfolding checksum
    checksum-rfc_checksum fuel array new h k e f small enough =
        let size = payload_bytes-length k in
        let (sum, result, field) =
          icmp6_checksum-rfc_checksum little fuel (header_of header_bytes) payload_bytes
            (header-IsHdr h) (inl refl) (rw size enough) in
        let computed : icmp6_checksum little fuel (header_of header_bytes)
              (payload_bytes ++ drop len payloadbuffer) len
            ≡ some sum =
          ap
            (λ n.
              icmp6_checksum little fuel (header_of header_bytes)
                (payload_bytes ++ drop len payloadbuffer) n)
            (sym size)
          ∙ (icmp6_checksum-append little fuel (header_of header_bytes) payload_bytes
                (drop len payloadbuffer)
              ∙ result) in
        rw
          (
            header-copied h e,
            copy_in-inside env d payload payload_offset len payloadbuffer k
                (omega (arith, f, small)),
            checksum,
          )
          (rw
            (
              start_of-copied payload payloadbuffer payload_offset len k (omega (arith, f, small)),
              computed,
            )
            (ap (λ bytes. array_of env false 2 (some bytes)) field
              ∙ array_of-filled env 2 (rfc_checksum (header_of header_bytes) payload_bytes) array d
                  new (rfc_checksum-length (header_of header_bytes) payload_bytes)))
