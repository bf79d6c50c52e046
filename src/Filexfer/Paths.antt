-- ===== src/Filexfer/Paths.antt =====
-- internal/encoding/ssh/filexfer/path_packets.go: the packets on paths. `MarshalPacket` takes the
-- packet's fields, the request id, and a slice with its capacity to write into; the type is a constant
-- of the packet. `UnmarshalPacketBody` gives the fields, and its error is the buffer's.
use sftp_go.Base.{ℕ, ◌+◌, [], length}
use sftp_go.Wire.{Bytes}
use sftp_go.Packet.Fxp
use sftp_go.Filexfer.Buffer.{
  Buffer, append_byte_slice, start_packet, finish_packet, marshal_buffer, consume_byte_slice,
}
use sftp_go.Filexfer.Attributes.{
  Attributes, no_attributes, attributes_len, marshal_attributes, unmarshal_attributes,
}

-- `LStatPacket`: its encoding with a request id, and its body.
unfoldable pub marshal_lstat_packet : Bytes → ℕ → ℕ → Bytes → Bytes × Bytes
marshal_lstat_packet path reqid capacity given = finish_packet [] (
    append_byte_slice path
      (start_packet Fxp.lstat reqid (marshal_buffer given capacity (4 + length path))))

unfoldable pub unmarshal_lstat_packet : Buffer → Bytes × Buffer
unmarshal_lstat_packet b = consume_byte_slice b

-- `SetstatPacket`.
unfoldable pub marshal_setstat_packet : Bytes → Attributes → ℕ → ℕ → Bytes → Bytes × Bytes
marshal_setstat_packet path attrs reqid capacity given = finish_packet [] (
    marshal_attributes attrs (
      append_byte_slice path (
        start_packet Fxp.setstat reqid
          (marshal_buffer given capacity (4 + length path + attributes_len attrs)))))

unfoldable pub unmarshal_setstat_packet : Buffer → (Bytes × Attributes) × Buffer
unmarshal_setstat_packet b =
    let (path, b1) = consume_byte_slice b in
    let (attrs, b2) = unmarshal_attributes no_attributes b1 in ((path, attrs), b2)

-- `RemovePacket`: its encoding with a request id, and its body.
unfoldable pub marshal_remove_packet : Bytes → ℕ → ℕ → Bytes → Bytes × Bytes
marshal_remove_packet path reqid capacity given = finish_packet [] (
    append_byte_slice path
      (start_packet Fxp.remove reqid (marshal_buffer given capacity (4 + length path))))

unfoldable pub unmarshal_remove_packet : Buffer → Bytes × Buffer
unmarshal_remove_packet b = consume_byte_slice b

-- `MkdirPacket`.
unfoldable pub marshal_mkdir_packet : Bytes → Attributes → ℕ → ℕ → Bytes → Bytes × Bytes
marshal_mkdir_packet path attrs reqid capacity given = finish_packet [] (
    marshal_attributes attrs (
      append_byte_slice path (
        start_packet Fxp.mkdir reqid
          (marshal_buffer given capacity (4 + length path + attributes_len attrs)))))

unfoldable pub unmarshal_mkdir_packet : Buffer → (Bytes × Attributes) × Buffer
unmarshal_mkdir_packet b =
    let (path, b1) = consume_byte_slice b in
    let (attrs, b2) = unmarshal_attributes no_attributes b1 in ((path, attrs), b2)

-- `RmdirPacket`: its encoding with a request id, and its body.
unfoldable pub marshal_rmdir_packet : Bytes → ℕ → ℕ → Bytes → Bytes × Bytes
marshal_rmdir_packet path reqid capacity given = finish_packet [] (
    append_byte_slice path
      (start_packet Fxp.rmdir reqid (marshal_buffer given capacity (4 + length path))))

unfoldable pub unmarshal_rmdir_packet : Buffer → Bytes × Buffer
unmarshal_rmdir_packet b = consume_byte_slice b

-- `RealPathPacket`: its encoding with a request id, and its body.
unfoldable pub marshal_realpath_packet : Bytes → ℕ → ℕ → Bytes → Bytes × Bytes
marshal_realpath_packet path reqid capacity given = finish_packet [] (
    append_byte_slice path
      (start_packet Fxp.realpath reqid (marshal_buffer given capacity (4 + length path))))

unfoldable pub unmarshal_realpath_packet : Buffer → Bytes × Buffer
unmarshal_realpath_packet b = consume_byte_slice b

-- `StatPacket`: its encoding with a request id, and its body.
unfoldable pub marshal_stat_packet : Bytes → ℕ → ℕ → Bytes → Bytes × Bytes
marshal_stat_packet path reqid capacity given = finish_packet [] (
    append_byte_slice path
      (start_packet Fxp.stat reqid (marshal_buffer given capacity (4 + length path))))

unfoldable pub unmarshal_stat_packet : Buffer → Bytes × Buffer
unmarshal_stat_packet b = consume_byte_slice b

-- `RenamePacket`.
unfoldable pub marshal_rename_packet : Bytes → Bytes → ℕ → ℕ → Bytes → Bytes × Bytes
marshal_rename_packet old new reqid capacity given = finish_packet [] (
    append_byte_slice new (
      append_byte_slice old (
        start_packet Fxp.rename reqid
          (marshal_buffer given capacity (4 + length old + 4 + length new)))))

unfoldable pub unmarshal_rename_packet : Buffer → (Bytes × Bytes) × Buffer
unmarshal_rename_packet b =
    let (old, b1) = consume_byte_slice b in
    let (new, b2) = consume_byte_slice b1 in ((old, new), b2)

-- `ReadLinkPacket`: its encoding with a request id, and its body.
unfoldable pub marshal_readlink_packet : Bytes → ℕ → ℕ → Bytes → Bytes × Bytes
marshal_readlink_packet path reqid capacity given = finish_packet [] (
    append_byte_slice path
      (start_packet Fxp.readlink reqid (marshal_buffer given capacity (4 + length path))))

unfoldable pub unmarshal_readlink_packet : Buffer → Bytes × Buffer
unmarshal_readlink_packet b = consume_byte_slice b

-- `SymlinkPacket`, with the arguments in the order of the wire: `TargetPath`, `LinkPath`.
unfoldable pub marshal_symlink_packet : Bytes → Bytes → ℕ → ℕ → Bytes → Bytes × Bytes
marshal_symlink_packet target link reqid capacity given = finish_packet [] (
    append_byte_slice link (
      append_byte_slice target (
        start_packet Fxp.symlink reqid
          (marshal_buffer given capacity (4 + length target + 4 + length link)))))

unfoldable pub unmarshal_symlink_packet : Buffer → (Bytes × Bytes) × Buffer
unmarshal_symlink_packet b =
    let (target, b1) = consume_byte_slice b in
    let (link, b2) = consume_byte_slice b1 in ((target, link), b2)
