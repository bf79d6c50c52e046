-- ===== src/Filexfer/Packets.antt =====
-- internal/encoding/ssh/filexfer: the request packets as one type (fxp.go, filexfer.go, packets.go),
-- and the packets that are not made from their type (init_packets.go, extended_packets.go). No
-- extended packet type is registered, so the data of an extended packet is a Buffer.
pub mod Bodies
pub mod Requests
use sftp_go.Base.{
  ℕ, ◌+◌, ◌-◌, ◌%◌, ◌^◌, zero, suc, Option, none, some, List, [], ◌∷◌, ◌++◌, length, replicate,
  take, ltb, ◌==◌, if◌then◌else◌,
}
use sftp_go.Wire.{Bytes, Error, short_packet, long_packet, ok, fail, panic, unmarshal_uint32}
use sftp_go.Packet.{ExtensionPair}
use sftp_go.Packet.Fxp
use sftp_go.Packet.Frame.{IoError, Source, FrameError, io, wire, Full, full, failed, read_full}
use sftp_go.Filexfer.Buffer.{
  Buffer, new_buffer, append_uint8, append_uint32, append_byte_slice, start_packet, finish_packet,
  marshal_buffer, put_length, rest_bytes, rest_len, consume_uint8, consume_uint32,
  consume_byte_slice,
}

-- `ComposePacket`.
unfoldable pub compose_packet : Bytes × Bytes → Bytes
compose_packet (header, payload) = header ++ payload

-- `RawPacket`.
pub record RawPacket : Type 0 where
  pub packet_type : ℕ
  pub request_id : ℕ
  pub raw_data : Buffer

unfoldable pub marshal_raw_packet : RawPacket → ℕ → ℕ → Bytes → Bytes × Bytes
marshal_raw_packet p reqid capacity given =
    finish_packet (rest_bytes p.raw_data)
      (start_packet p.packet_type reqid (marshal_buffer given capacity 0))

-- `RawPacket.UnmarshalFrom`; the error is the buffer's.
unfoldable pub unmarshal_raw_packet : Buffer → RawPacket × Buffer
unmarshal_raw_packet b =
    let (typ, b1) = consume_uint8 b in
    let (reqid, b2) = consume_uint32 b1 in
    (record { packet_type = typ; request_id = reqid; raw_data = b2 }, b2)

-- What `readPacket` gives: the packet behind its length, with what is left of the connection; an
-- error; or a run-time panic. `int` has 64 bits.
pub data Taken : Type 0 where
  taken : Bytes → Source → Taken
  untaken : FrameError → Taken
  crashed : Taken

unfoldable pub read_packet : ℕ → Source → Taken
read_packet max_packet_length r = elim (read_full 4 r) [
  | failed e ↦ untaken (io e)
  | full b r' ↦ elim (unmarshal_uint32 b) [
    | ok len _ ↦
        let body : Taken = elim (read_full len r') [
          | failed e ↦ untaken (io e)
          | full d r2 ↦ taken d r2
        ] in
        if ltb len 5
        then untaken (wire short_packet)
        else if ltb max_packet_length len
        then untaken (wire long_packet)
        else body
    | fail e ↦ untaken (wire e)
    | panic ↦ crashed
  ]
]

-- `ExtensionPair` of extensions.go.
unfoldable pub extension_pair_len : ExtensionPair → ℕ
extension_pair_len e = 4 + length e.name + 4 + length e.value

unfoldable pub marshal_extension_pair : ExtensionPair → Buffer → Buffer
marshal_extension_pair e b = append_byte_slice e.value (append_byte_slice e.name b)

unfoldable pub unmarshal_extension_pair : Buffer → ExtensionPair × Buffer
unmarshal_extension_pair b =
    let (name, b1) = consume_byte_slice b in
    let (value, b2) = consume_byte_slice b1 in (record { name = name; value = value }, b2)

-- The two loops of `MarshalBinary` over the extensions.
unfoldable pub extension_pairs_len : List ExtensionPair → ℕ
extension_pairs_len [] = 0
extension_pairs_len (e ∷ es) = extension_pair_len e + extension_pairs_len es

unfoldable pub marshal_extension_pairs : List ExtensionPair → Buffer → Buffer
marshal_extension_pairs [] b = b
marshal_extension_pairs (e ∷ es) b = marshal_extension_pairs es (marshal_extension_pair e b)

-- `MarshalBinary` of an InitPacket and of a VersionPacket.
unfoldable pub marshal_greeting : ℕ → ℕ → List ExtensionPair → Bytes
marshal_greeting packet_type version exts =
    let b = append_uint8 packet_type (new_buffer (replicate 4 0)) in
    rest_bytes (
      put_length (1 + 4 + extension_pairs_len exts)
        (marshal_extension_pairs exts (append_uint32 version b)))

unfoldable pub marshal_init_packet : ℕ → List ExtensionPair → Bytes
marshal_init_packet version exts = marshal_greeting Fxp.init version exts

unfoldable pub marshal_version_packet : ℕ → List ExtensionPair → Bytes
marshal_version_packet version exts = marshal_greeting Fxp.version version exts

-- The loop of `UnmarshalBinary` while `buf.Len() > 0`. A pair takes 8 bytes at least, or ends the
-- loop by its error, so the number of bytes left is fuel enough. The pair with the error is left out.
unfoldable pub unmarshal_extension_pairs : ℕ → Buffer → List ExtensionPair × Buffer
unmarshal_extension_pairs zero b = ([], b)
unmarshal_extension_pairs (suc fuel) b =
    let (e, b1) = unmarshal_extension_pair b in
    let (es, b2) = unmarshal_extension_pairs fuel b1 in
    let read : List ExtensionPair × Buffer = elim b1.err [
      | none ↦ (e ∷ es, b2)
      | some err ↦ ([], b1)
    ] in
    if rest_len b == 0 then ([], b) else read

-- `InitPacket.UnmarshalBinary`, which returns the buffer's error.
unfoldable pub unmarshal_init_packet : Bytes → (ℕ × List ExtensionPair) × Option Error
unmarshal_init_packet d =
    let (version, b1) = consume_uint32 (new_buffer d) in
    let (exts, b2) = unmarshal_extension_pairs (rest_len b1) b1 in ((version, exts), b2.err)

-- `VersionPacket.UnmarshalBinary`, which returns an error of the loop only: a version that is cut
-- short leaves nothing to read, and is not reported.
unfoldable pub unmarshal_version_packet : Bytes → (ℕ × List ExtensionPair) × Option Error
unmarshal_version_packet d =
    let (version, b1) = consume_uint32 (new_buffer d) in
    let (exts, b2) = unmarshal_extension_pairs (rest_len b1) b1 in
    ((version, exts), if rest_len b1 == 0 then none else b2.err)

-- `ExtendedPacket`, whose `Data` may be nil.
unfoldable pub data_binary : Option Buffer → Bytes
data_binary none = []
data_binary (some d) = d.contents

unfoldable pub marshal_extended_packet : Bytes → Option Buffer → ℕ → ℕ → Bytes → Bytes × Bytes
marshal_extended_packet request extra reqid capacity given = finish_packet (data_binary extra) (
    append_byte_slice request
      (start_packet Fxp.extended reqid (marshal_buffer given capacity (4 + length request))))

unfoldable pub marshal_extended_reply_packet : Option Buffer → ℕ → ℕ → Bytes → Bytes × Bytes
marshal_extended_reply_packet extra reqid capacity given =
    finish_packet (data_binary extra)
      (start_packet Fxp.extended_reply reqid (marshal_buffer given capacity 0))

-- `UnmarshalPacketBody` on a packet without data, which gets a new Buffer.
unfoldable pub unmarshal_extended_packet : Buffer → (Bytes × Option Buffer) × Buffer
unmarshal_extended_packet b =
    let (request, b1) = consume_byte_slice b in
    ((request, elim b1.err [ some e ↦ none | none ↦ some (new_buffer (rest_bytes b1)) ]), b1)

unfoldable pub unmarshal_extended_reply_packet : Buffer → Option Buffer × Buffer
unmarshal_extended_reply_packet b = (some (new_buffer (rest_bytes b)), b)
