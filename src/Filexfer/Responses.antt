-- ===== src/Filexfer/Responses.antt =====
-- internal/encoding/ssh/filexfer/response_packets.go: the response packets.
use sftp_go.Base.{ℕ, ◌+◌, ◌%◌, ◌^◌, zero, suc, none, some, List, [], ◌∷◌, length}
use sftp_go.Wire.{Bytes}
use sftp_go.Packet.Fxp
use sftp_go.Filexfer.Buffer.{
  Buffer, append_uint32, append_byte_slice, start_packet, finish_packet, marshal_buffer,
  consume_uint32, consume_byte_slice, consume_byte_slice_copy, consume_count,
}
use sftp_go.Filexfer.Attributes.{
  Attributes, attributes_len, marshal_attributes, unmarshal_attributes, NameEntry, name_entry_len,
  marshal_name_entry, unmarshal_name_entry,
}

-- `StatusPacket`.
unfoldable pub marshal_fx_status : ℕ → Bytes → Bytes → ℕ → ℕ → Bytes → Bytes × Bytes
marshal_fx_status code message tag reqid capacity given = finish_packet [] (
    append_byte_slice tag (
      append_byte_slice message (
        append_uint32 code (
          start_packet Fxp.status reqid
            (marshal_buffer given capacity (4 + 4 + length message + 4 + length tag))))))

unfoldable pub unmarshal_fx_status : Buffer → (ℕ × Bytes × Bytes) × Buffer
unmarshal_fx_status b =
    let (code, b1) = consume_uint32 b in
    let (message, b2) = consume_byte_slice b1 in
    let (tag, b3) = consume_byte_slice b2 in ((code, message, tag), b3)

-- `HandlePacket`: its encoding with a request id, and its body.
unfoldable pub marshal_handle_packet : Bytes → ℕ → ℕ → Bytes → Bytes × Bytes
marshal_handle_packet handle reqid capacity given = finish_packet [] (
    append_byte_slice handle
      (start_packet Fxp.handle reqid (marshal_buffer given capacity (4 + length handle))))

unfoldable pub unmarshal_handle_packet : Buffer → Bytes × Buffer
unmarshal_handle_packet b = consume_byte_slice b

-- `DataPacket`, with the data as payload.
unfoldable pub marshal_data_packet : Bytes → ℕ → ℕ → Bytes → Bytes × Bytes
marshal_data_packet content reqid capacity given = finish_packet content (
    append_uint32 (length content % 2 ^ 32)
      (start_packet Fxp.content reqid (marshal_buffer given capacity 4)))

unfoldable pub unmarshal_data_packet : Bytes → Buffer → Bytes × Buffer
unmarshal_data_packet hint b = consume_byte_slice_copy hint b

-- The loops over the entries of a `NamePacket`.
unfoldable pub name_entries_len : List NameEntry → ℕ
name_entries_len [] = 0
name_entries_len (e ∷ es) = name_entry_len e + name_entries_len es

unfoldable pub marshal_name_entries : List NameEntry → Buffer → Buffer
marshal_name_entries [] b = b
marshal_name_entries (e ∷ es) b = marshal_name_entries es (marshal_name_entry e b)

-- The entries up to an error, which ends the loop.
unfoldable pub unmarshal_name_entries : ℕ → Buffer → List NameEntry × Buffer
unmarshal_name_entries zero b = ([], b)
unmarshal_name_entries (suc count) b =
    let (e, b1) = unmarshal_name_entry b in
    let (es, b2) = unmarshal_name_entries count b1 in
    elim b1.err [ none ↦ (e ∷ es, b2) | some err ↦ ([], b1) ]

-- `NamePacket`.
unfoldable pub marshal_name_packet : List NameEntry → ℕ → ℕ → Bytes → Bytes × Bytes
marshal_name_packet entries reqid capacity given = finish_packet [] (
    marshal_name_entries entries (
      append_uint32 (length entries % 2 ^ 32) (
        start_packet Fxp.name reqid
          (marshal_buffer given capacity (4 + name_entries_len entries)))))

unfoldable pub unmarshal_name_packet : Buffer → List NameEntry × Buffer
unmarshal_name_packet b =
    let (count, b1) = consume_count b in
    let read = unmarshal_name_entries count b1 in elim b1.err [ none ↦ read | some err ↦ ([], b1) ]

-- `AttrsPacket`.
unfoldable pub marshal_attrs_packet : Attributes → ℕ → ℕ → Bytes → Bytes × Bytes
marshal_attrs_packet attrs reqid capacity given = finish_packet [] (
    marshal_attributes attrs
      (start_packet Fxp.attrs reqid (marshal_buffer given capacity (attributes_len attrs))))

unfoldable pub unmarshal_attrs_packet : Attributes → Buffer → Attributes × Buffer
unmarshal_attrs_packet a b = unmarshal_attributes a b
