-- ===== src/Packet/Frame/Stream.antt =====
-- A stream of framed packets, read back one by one.
use sftp_go.Base.{
  ℕ, suc, ◌+◌, ◌-◌, ◌%◌, ◌^◌, ◌≤◌, ◌<◌, ◌≡◌, refl, sym, ◌∙◌, arith, [], ◌∷◌, ◌++◌, append_assoc,
  append-nil, length, length-append, drop, take-append, drop-append, false, Option, none, ltb,
}
use sftp_go.Wire.{Bytes, ok, uint32_bytes, unmarshal_uint32}
use sftp_go.Wire.RoundTrip.{unmarshal_uint32_bytes, length-uint32_bytes}
use sftp_go.Packet.Frame.{
  IoError, Source, full, read_full, send_packet, packet, room_of, recv_body, recv_sized, recv_frame,
  max_msg_length,
}

abbrev pub source : Bytes → IoError → Source
source bytes at_end = record { bytes = bytes; at_end = at_end }

-- Reading exactly what stands in front.
read_full-append :
    (xs ys : Bytes) (e : IoError)
    → read_full (length xs) (source (xs ++ ys) e) ≡ full xs (source ys e)
unfolding read_full
read_full-append xs ys e = ground (arith, length-append xs ys, take-append xs ys, drop-append xs ys)

-- New slices, or a page with room for the largest packet.
abbrev pub HasRoom : Option ℕ → Type 0
HasRoom page = (n : ℕ) → n ≤ max_msg_length → n ≤ room_of page n

pub recv_sized-append :
    (page : Option ℕ) (t : ℕ) (content more : Bytes) (e : IoError)
    → HasRoom page
    → length content < max_msg_length
    → recv_sized page (suc (length content)) (source (t ∷ (content ++ more)) e)
      ≡ packet t content (source more e)
unfolding recv_sized recv_body
recv_sized-append page t content more e room h =
    let fits : suc (length content) ≤ room_of page (suc (length content)) =
      room (suc (length content)) (omega arith) in
    ground (arith, read_full-append (t ∷ content) more e)

pub none-HasRoom : HasRoom none
unfolding room_of
none-HasRoom n le = omega arith

-- Four bytes that give a length.
pub recv_frame-append :
    (page : Option ℕ) (prefix rest : Bytes) (size : ℕ) (e : IoError)
    → HasRoom page
    → length prefix ≡ 4
    → unmarshal_uint32 prefix ≡ ok size []
    → recv_frame page (source (prefix ++ rest) e) ≡ recv_sized page size (source rest e)
unfolding recv_frame
recv_frame-append page prefix rest size e room four read =
    let front : read_full 4 (source (prefix ++ rest) e) ≡ full prefix (source rest e) =
      rw four at (read_full-append prefix rest e) in
    let fits : ltb (room_of page 4) 4 ≡ false = ground (arith, room 4 (omega arith)) in
    rw (recv_frame, fits) (rw front (rw read refl))

read_length :
    (size : ℕ) (rest : Bytes) (e : IoError)
    → size < 2 ^ 32
    → recv_frame none (source (uint32_bytes size ++ rest) e) ≡ recv_sized none size (source rest e)
read_length size rest e h =
    let read : unmarshal_uint32 (uint32_bytes size) ≡ ok size [] =
      rw append-nil at (unmarshal_uint32_bytes size [] h) in
    recv_frame-append none (uint32_bytes size) rest size e none-HasRoom (length-uint32_bytes size)
      read

-- A packet that `sendPacket` wrote, with anything behind it, is received with its type byte, its
-- header's and payload's bytes, and the stream left at what follows; for a header of four bytes
-- and the type at least, and a packet of at most `maxMsgLength` bytes.
pub recv_frame-send_packet :
    (z : Bytes) (t : ℕ) (body payload more : Bytes) (e : IoError)
    → length z ≡ 4
    → length body + length payload < max_msg_length
    → recv_frame none (source (send_packet (z ++ t ∷ body, payload) ++ more) e)
      ≡ packet t (body ++ payload) (source more e)
unfolding send_packet
recv_frame-send_packet z t body payload more e hz h =
    let size : (length (z ++ t ∷ body) + length payload - 4) % 2 ^ 32
        ≡ suc (length (body ++ payload)) =
      omega (arith, length-append z (t ∷ body), length-append body payload) in
    let cut : drop 4 (z ++ t ∷ body) ≡ t ∷ body = rw hz at (drop-append z (t ∷ body)) in
    rw (size, cut)
      (rw (append_assoc, append_assoc)
        (read_length _ _ e (omega (arith, length-append body payload))
          ∙ rw (sym (append_assoc body payload more)) (
              recv_sized-append none t (body ++ payload) more e none-HasRoom
                (omega (arith, length-append body payload)))))
