-- ===== src/Filexfer/Handles.antt =====
-- internal/encoding/ssh/filexfer/handle_packets.go and open_packets.go: the packets on handles, and
-- those that open files and directories.
use sftp_go.Base.{ℕ, ◌+◌, ◌%◌, ◌^◌, [], length}
use sftp_go.Wire.{Bytes}
use sftp_go.Packet.Fxp
use sftp_go.Filexfer.Buffer.{
  Buffer, append_uint32, append_uint64, append_byte_slice, start_packet, finish_packet,
  marshal_buffer, consume_uint32, consume_uint64, consume_byte_slice, consume_byte_slice_copy,
}
use sftp_go.Filexfer.Attributes.{
  Attributes, no_attributes, attributes_len, marshal_attributes, unmarshal_attributes,
}

-- `ClosePacket`: its encoding with a request id, and its body.
unfoldable pub marshal_close_packet : Bytes → ℕ → ℕ → Bytes → Bytes × Bytes
marshal_close_packet handle reqid capacity given = finish_packet [] (
    append_byte_slice handle
      (start_packet Fxp.close reqid (marshal_buffer given capacity (4 + length handle))))

unfoldable pub unmarshal_close_packet : Buffer → Bytes × Buffer
unmarshal_close_packet b = consume_byte_slice b

-- `ReadPacket`.
unfoldable pub marshal_read_packet : Bytes → ℕ → ℕ → ℕ → ℕ → Bytes → Bytes × Bytes
marshal_read_packet handle offset len reqid capacity given = finish_packet [] (
    append_uint32 len (
      append_uint64 offset (
        append_byte_slice handle (
          start_packet Fxp.read reqid
            (marshal_buffer given capacity (4 + length handle + 8 + 4))))))

unfoldable pub unmarshal_read_packet : Buffer → (Bytes × ℕ × ℕ) × Buffer
unmarshal_read_packet b =
    let (handle, b1) = consume_byte_slice b in
    let (offset, b2) = consume_uint64 b1 in
    let (len, b3) = consume_uint32 b2 in ((handle, offset, len), b3)

-- `WritePacket`, with the data as payload.
unfoldable pub marshal_write_packet : Bytes → ℕ → Bytes → ℕ → ℕ → Bytes → Bytes × Bytes
marshal_write_packet handle offset content reqid capacity given = finish_packet content (
    append_uint32 (length content % 2 ^ 32) (
      append_uint64 offset (
        append_byte_slice handle (
          start_packet Fxp.write reqid
            (marshal_buffer given capacity (4 + length handle + 8 + 4))))))

unfoldable pub unmarshal_write_packet : Bytes → Buffer → (Bytes × ℕ × Bytes) × Buffer
unmarshal_write_packet hint b =
    let (handle, b1) = consume_byte_slice b in
    let (offset, b2) = consume_uint64 b1 in
    let (content, b3) = consume_byte_slice_copy hint b2 in ((handle, offset, content), b3)

-- `FStatPacket`: its encoding with a request id, and its body.
unfoldable pub marshal_fstat_packet : Bytes → ℕ → ℕ → Bytes → Bytes × Bytes
marshal_fstat_packet handle reqid capacity given = finish_packet [] (
    append_byte_slice handle
      (start_packet Fxp.fstat reqid (marshal_buffer given capacity (4 + length handle))))

unfoldable pub unmarshal_fstat_packet : Buffer → Bytes × Buffer
unmarshal_fstat_packet b = consume_byte_slice b

-- `FSetstatPacket`.
unfoldable pub marshal_fsetstat_packet : Bytes → Attributes → ℕ → ℕ → Bytes → Bytes × Bytes
marshal_fsetstat_packet handle attrs reqid capacity given = finish_packet [] (
    marshal_attributes attrs (
      append_byte_slice handle (
        start_packet Fxp.fsetstat reqid
          (marshal_buffer given capacity (4 + length handle + attributes_len attrs)))))

unfoldable pub unmarshal_fsetstat_packet : Buffer → (Bytes × Attributes) × Buffer
unmarshal_fsetstat_packet b =
    let (handle, b1) = consume_byte_slice b in
    let (attrs, b2) = unmarshal_attributes no_attributes b1 in ((handle, attrs), b2)

-- `ReadDirPacket`: its encoding with a request id, and its body.
unfoldable pub marshal_readdir_packet : Bytes → ℕ → ℕ → Bytes → Bytes × Bytes
marshal_readdir_packet handle reqid capacity given = finish_packet [] (
    append_byte_slice handle
      (start_packet Fxp.readdir reqid (marshal_buffer given capacity (4 + length handle))))

unfoldable pub unmarshal_readdir_packet : Buffer → Bytes × Buffer
unmarshal_readdir_packet b = consume_byte_slice b

-- `OpenPacket`.
unfoldable pub marshal_open_packet : Bytes → ℕ → Attributes → ℕ → ℕ → Bytes → Bytes × Bytes
marshal_open_packet filename pflags attrs reqid capacity given = finish_packet [] (
    marshal_attributes attrs (
      append_uint32 pflags (
        append_byte_slice filename (
          start_packet Fxp.open_file reqid
            (marshal_buffer given capacity (4 + length filename + 4 + attributes_len attrs))))))

unfoldable pub unmarshal_open_packet : Buffer → (Bytes × ℕ × Attributes) × Buffer
unmarshal_open_packet b =
    let (filename, b1) = consume_byte_slice b in
    let (pflags, b2) = consume_uint32 b1 in
    let (attrs, b3) = unmarshal_attributes no_attributes b2 in ((filename, pflags, attrs), b3)

-- `OpenDirPacket`: its encoding with a request id, and its body.
unfoldable pub marshal_opendir_packet : Bytes → ℕ → ℕ → Bytes → Bytes × Bytes
marshal_opendir_packet path reqid capacity given = finish_packet [] (
    append_byte_slice path
      (start_packet Fxp.opendir reqid (marshal_buffer given capacity (4 + length path))))

unfoldable pub unmarshal_opendir_packet : Buffer → Bytes × Buffer
unmarshal_opendir_packet b = consume_byte_slice b
