-- ===== src/Filexfer/Packets/Requests.antt =====
-- internal/encoding/ssh/filexfer/packets.go: `RequestPacket`.
use sftp_go.Base.{ℕ, Option, none, some}
use sftp_go.Wire.{Bytes, Error}
use sftp_go.Packet.Frame.{Source, FrameError}
use sftp_go.Filexfer.Buffer.{Buffer, new_buffer, consume_uint8, consume_uint32}
use sftp_go.Filexfer.Packets.{read_packet, taken, untaken, crashed}
use sftp_go.Filexfer.Packets.Bodies.{Body, marshal_body, new_packet_from_type, unmarshal_body}

pub record RequestPacket : Type 0 where
  pub request_id : ℕ
  pub request : Option Body

-- `RequestPacket.MarshalPacket`; without a request, its error.
unfoldable pub marshal_request : RequestPacket → ℕ → ℕ → Bytes → Option (Bytes × Bytes)
marshal_request p reqid capacity given = elim p.request [
  | none ↦ none
  | some body ↦ some (marshal_body body reqid capacity given)
]

-- What `RequestPacket.UnmarshalFrom` leaves: the packet, where the error is the buffer's; or the
-- packet as it was, with the buffer's error or for a type that no request has.
pub data Parsed : Type 0 where
  parsed : RequestPacket → Option Error → Parsed
  no_type : Error → Parsed
  unexpected_type : ℕ → Parsed

unfoldable pub unmarshal_request : Buffer → Parsed
unmarshal_request b =
    let (typ, b1) = consume_uint8 b in
    let (reqid, b2) = consume_uint32 b1 in
    elim b1.err [
      | some e ↦ no_type e
      | none ↦ elim (new_packet_from_type typ) [
        | none ↦ unexpected_type typ
        | some req ↦
            let (body, b3) = unmarshal_body req b2 in
            parsed (record { request_id = reqid; request = some body }) b3.err
      ]
    ]

-- `RequestPacket.ReadFrom`; the slice to read into does not show in the result.
pub data ReadFrom : Type 0 where
  read_from : Parsed → Source → ReadFrom
  not_read : FrameError → ReadFrom
  read_crashed : ReadFrom

unfoldable pub read_request : ℕ → Source → ReadFrom
read_request max_packet_length r = elim (read_packet max_packet_length r) [
  | taken d r' ↦ read_from (unmarshal_request (new_buffer d)) r'
  | untaken e ↦ not_read e
  | crashed ↦ read_crashed
]
