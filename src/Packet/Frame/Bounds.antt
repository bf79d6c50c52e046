-- ===== src/Packet/Frame/Bounds.antt =====
-- What `recvPacket` takes from any stream.
use sftp_go.Base.{
  ℕ, suc, ◌≤◌, ◌<◌, ◌≡◌, refl, ◌∙◌, ap, arith, [], ◌∷◌, ◌++◌, length, length-take, take-drop,
  Option, none, some, ltb, false,
}
use sftp_go.Wire.{Bytes, ok, unmarshal_uint32}
use sftp_go.Packet.Frame.{
  Source, Full, full, failed, read_full, Received, packet, broken, crashed, room_of, recv_body,
  recv_sized, recv_frame, max_msg_length, recv_packet,
}
use sftp_go.Packet.Frame.Stream.{
  source, HasRoom, none-HasRoom, recv_sized-append, recv_frame-append,
}
use sftp_go.Allocator.{Allocator}

abbrev Reads : ℕ → Source → Full → Type 0
Reads n r (full b r') = (length b ≡ n) × (r.bytes ≡ b ++ r'.bytes) × (r'.at_end ≡ r.at_end)
Reads n r (failed e) = Unit {0}

read_full-Reads : (n : ℕ) (r : Source) → Reads n r (read_full n r)
unfolding read_full
read_full-Reads n r = ground (arith, length-take n r.bytes, take-drop n r.bytes)

-- A packet stands in front of a stream: four bytes that give its length, at most `maxMsgLength`, then
-- its type and its content; and behind it is the rest.
abbrev pub Framed : Source → ℕ → Bytes → Source → Type 0
Framed r t content rest =
    (prefix : Bytes) × (length prefix ≡ 4)
    × (unmarshal_uint32 prefix ≡ ok (suc (length content)) [])
    × (suc (length content) ≤ max_msg_length)
    × (r.bytes ≡ prefix ++ t ∷ (content ++ rest.bytes))
    × (rest.at_end ≡ r.at_end)

-- The packet in front of the stream; an error only where there is none; and no panic.
abbrev pub Cuts : Source → Received → Type 0
Cuts r (packet t content rest) = Framed r t content rest
Cuts r (broken e) = (t : ℕ) (content : Bytes) (rest : Source) → ¬ Framed r t content rest
Cuts r crashed = ⊥

-- The body of so many bytes in front of the stream, and the rest.
abbrev Took : ℕ → Source → Received → Type 0
Took size r (packet t content rest) =
    (suc (length content) ≡ size)
    × (size ≤ max_msg_length)
    × (r.bytes ≡ t ∷ (content ++ rest.bytes))
    × (rest.at_end ≡ r.at_end)
Took size r (broken e) = Unit {0}
Took size r crashed = ⊥

-- Of a packet that is received, that it stood in front of the stream.
abbrev Stood : Source → Received → Type 0
Stood r (packet t content rest) = Framed r t content rest
Stood r (broken e) = Unit {0}
Stood r crashed = ⊥

four_bytes : (b : Bytes) → length b ≡ 4 → (v : ℕ) × (unmarshal_uint32 b ≡ ok v [])
unfolding unmarshal_uint32
four_bytes [] h = absurd (omega arith)
four_bytes (a ∷ []) h = absurd (omega arith)
four_bytes (a ∷ b ∷ []) h = absurd (omega arith)
four_bytes (a ∷ b ∷ c ∷ []) h = absurd (omega arith)
four_bytes (a ∷ b ∷ c ∷ d ∷ []) h = (_, refl)
four_bytes (a ∷ b ∷ c ∷ d ∷ e ∷ rest) h = absurd (omega arith)

module _ (page : Option ℕ) (room : HasRoom page) where
  fits : (n : ℕ) → n ≤ max_msg_length → ltb (room_of page n) n ≡ false
  fits n small = let enough : n ≤ room_of page n = room n small in ground arith

  four_fit : ltb (room_of page 4) 4 ≡ false
  four_fit = fits 4 (omega arith)

  recv_body-Took :
      (size : ℕ) (r : Source) (f : Full)
      → 0 < size
      → size ≤ max_msg_length
      → read_full size r ≡ f
      → Reads size r f
      → Took size r (recv_body page size r)
  unfolding recv_body
  recv_body-Took size r (failed e) some_bytes small q h = rw (recv_body, fits size small) (rw q tt)
  recv_body-Took size r (full [] r') some_bytes small q (n, b, e) = absurd (omega arith)
  recv_body-Took size r (full (t ∷ content) r') some_bytes small q (n, b, e) =
      rw (recv_body, fits size small) (rw q (n, small, b, e))

  recv_sized-Took : (size : ℕ) (r : Source) → Took size r (recv_sized page size r)
  unfolding recv_sized
  recv_sized-Took size r =
      let body = λ (some_bytes : 0 < size) (small : size ≤ max_msg_length).
        recv_body-Took size r _ some_bytes small refl (read_full-Reads size r) in
      ground (arith, body)

  -- The four bytes of the length in front of what the read of the body is about.
  Took-Stood :
      (r r' : Source) (prefix : Bytes) (size : ℕ) (x : Received)
      → Reads 4 r (full prefix r')
      → unmarshal_uint32 prefix ≡ ok size []
      → Took size r' x
      → Stood r x
  Took-Stood r r' prefix size (packet t content rest) (n, b, e) read (len, small, b', e') =
      (prefix, n, rw len read, rw len small, rw b' at b, e' ∙ e)
  Took-Stood r r' prefix size (broken e) f read h = tt
  Took-Stood r r' prefix size crashed f read h = h

  after_length :
      (r : Source) (f : Full) → Reads 4 r f → read_full 4 r ≡ f → Stood r (recv_frame page r)
  unfolding recv_frame
  after_length r (failed e) h q = rw (recv_frame, four_fit) (rw q tt)
  after_length r (full prefix r') h q =
      let (size, read) = four_bytes prefix h.0 in
      rw (recv_frame, four_fit)
        (rw q (rw read (Took-Stood r r' prefix size _ h read (recv_sized-Took size r'))))

  -- A packet in front of the stream is received.
  recv_frame-Framed :
      (r : Source) (t : ℕ) (content : Bytes) (rest : Source)
      → Framed r t content rest
      → recv_frame page r ≡ packet t content rest
  recv_frame-Framed r t content rest (prefix, four, read, small, bytes, end) =
      let here : r ≡ source (prefix ++ t ∷ (content ++ rest.bytes)) rest.at_end = cc (bytes, end) in
      ap (λ x. recv_frame page x) here
      ∙ (recv_frame-append page prefix _ (suc (length content)) rest.at_end room four read
          ∙ recv_sized-append page t content rest.bytes rest.at_end room (omega arith))

  recv_frame-Cuts : (r : Source) (x : Received) → recv_frame page r ≡ x → Stood r x → Cuts r x
  recv_frame-Cuts r (packet t content rest) q s = s
  recv_frame-Cuts r (broken e) q s =
      λ t content rest f. absurd (cc (q, recv_frame-Framed r t content rest f))
  recv_frame-Cuts r crashed q s = s

page-HasRoom : HasRoom (some max_msg_length)
unfolding room_of
page-HasRoom n le = le

-- `recvPacket` never panics. A packet that it returns stood in front of the stream, its type and its
-- content byte for byte, behind the four bytes that give its length, at most `maxMsgLength`, and the
-- stream is left at what follows; and where it returns an error, no such packet stood there. For any
-- stream, with and without an allocator.
pub recv_packet-Cuts :
    (alloc : Option Allocator) (order_id : ℕ) (r : Source) → Cuts r (recv_packet alloc order_id r).1
unfolding recv_packet
recv_packet-Cuts none order_id r =
    recv_frame-Cuts none none-HasRoom r _ refl
      (after_length none none-HasRoom r _ (read_full-Reads 4 r) refl)
recv_packet-Cuts (some a) order_id r =
    recv_frame-Cuts (some max_msg_length) page-HasRoom r _ refl
      (after_length (some max_msg_length) page-HasRoom r _ (read_full-Reads 4 r) refl)
