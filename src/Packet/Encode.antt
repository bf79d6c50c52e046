-- ===== src/Packet/Encode.antt =====
-- packet.go: `MarshalBinary` and `marshalPacket` of the request packets. The first four bytes are
-- left zero for the length, which `sendPacket` fills in.
use sftp_go.Base.{ℕ, Option, none, some, List, [], ◌∷◌, codes}
use sftp_go.Wire.{Bytes, marshal_uint32, marshal_uint64, marshal_string}
use sftp_go.Attrs.{marshal_file_stat}
use sftp_go.Value.{marshal}
use sftp_go.Packet.{
  Packet, ExtensionPair, AttrsField, raw, file_stat, file_info, other, init, lstat, open_file,
  close, read, write, fstat, setstat, fsetstat, opendir, readdir, remove, mkdir, rmdir, realpath,
  stat, rename, readlink, symlink, extended,
}
use sftp_go.Packet.Decode.{statvfs_name, posix_rename_name, hardlink_name}
use sftp_go.Packet.Fxp

-- `make([]byte, 4, l)` and the type.
abbrev pub start_packet : ℕ → Bytes
start_packet t = 0 ∷ 0 ∷ 0 ∷ 0 ∷ t ∷ []

unfoldable pub marshal_id_string : ℕ → ℕ → Bytes → Bytes
marshal_id_string t id s = marshal_string (marshal_uint32 (start_packet t) id) s

unfoldable pub marshal_pairs : Bytes → List ExtensionPair → Bytes
marshal_pairs b [] = b
marshal_pairs b (e ∷ es) = marshal_pairs (marshal_string (marshal_string b e.name) e.value) es

unfoldable pub marshal_init : ℕ → List ExtensionPair → Bytes
unfolding marshal_pairs
marshal_init version exts = marshal_pairs (marshal_uint32 (start_packet Fxp.init) version) exts

unfoldable pub marshal_symlink : ℕ → Bytes → Bytes → Bytes
marshal_symlink id target link =
    marshal_string (marshal_string (marshal_uint32 (start_packet Fxp.symlink) id) target) link

unfoldable pub marshal_read : ℕ → ℕ → ℕ → Bytes → Bytes
marshal_read id len offset handle =
    let b = marshal_string (marshal_uint32 (start_packet Fxp.read) id) handle in
    marshal_uint32 (marshal_uint64 b offset) len

unfoldable pub marshal_rename : ℕ → Bytes → Bytes → Bytes
marshal_rename id old new =
    marshal_string (marshal_string (marshal_uint32 (start_packet Fxp.rename) id) old) new

-- The header; `Data` is the payload.
unfoldable pub marshal_write : ℕ → ℕ → ℕ → Bytes → Bytes
marshal_write id len offset handle =
    let b = marshal_string (marshal_uint32 (start_packet Fxp.write) id) handle in
    marshal_uint32 (marshal_uint64 b offset) len

unfoldable pub marshal_mkdir : ℕ → ℕ → Bytes → Bytes
marshal_mkdir id flags path =
    marshal_uint32 (marshal_string (marshal_uint32 (start_packet Fxp.mkdir) id) path) flags

-- The switch over `p.Attrs.(type)`, the payload of an open, setstat or fsetstat packet.
unfoldable pub marshal_attrs_field : ℕ → AttrsField → Bytes
marshal_attrs_field flags (raw attrs) = attrs
marshal_attrs_field flags (file_info fs) = marshal_file_stat [] flags fs
marshal_attrs_field flags (file_stat fs) = marshal_file_stat [] flags fs
marshal_attrs_field flags (other v) = marshal [] v

unfoldable pub marshal_open : ℕ → Bytes → ℕ → ℕ → Bytes
marshal_open id path pflags flags =
    let b = marshal_string (marshal_uint32 (start_packet Fxp.open_file) id) path in
    marshal_uint32 (marshal_uint32 b pflags) flags

unfoldable pub marshal_setstat : ℕ → ℕ → Bytes → Bytes
marshal_setstat id flags path =
    marshal_uint32 (marshal_string (marshal_uint32 (start_packet Fxp.setstat) id) path) flags

unfoldable pub marshal_fsetstat : ℕ → ℕ → Bytes → Bytes
marshal_fsetstat id flags handle =
    marshal_uint32 (marshal_string (marshal_uint32 (start_packet Fxp.fsetstat) id) handle) flags

-- The client's own extended packets: `sshFxpStatvfsPacket`, `sshFxpPosixRenamePacket`,
-- `sshFxpHardlinkPacket` and `sshFxpFsyncPacket`.
unfoldable pub marshal_statvfs : ℕ → Bytes → Bytes
marshal_statvfs id path =
    marshal_string (marshal_string (marshal_uint32 (start_packet Fxp.extended) id) statvfs_name)
      path

unfoldable pub marshal_posix_rename : ℕ → Bytes → Bytes → Bytes
marshal_posix_rename id old new =
    let b = marshal_uint32 (start_packet Fxp.extended) id in
    marshal_string (marshal_string (marshal_string b posix_rename_name) old) new

unfoldable pub marshal_hardlink : ℕ → Bytes → Bytes → Bytes
marshal_hardlink id old new =
    let b = marshal_uint32 (start_packet Fxp.extended) id in
    marshal_string (marshal_string (marshal_string b hardlink_name) old) new

abbrev pub fsync_name : Bytes
fsync_name = codes "fsync@openssh.com"

unfoldable pub marshal_fsync : ℕ → Bytes → Bytes
marshal_fsync id handle =
    marshal_string (marshal_string (marshal_uint32 (start_packet Fxp.extended) id) fsync_name)
      handle

-- `marshalPacket`: the header and the payload, which is empty for a packet that has only
-- `MarshalBinary`. `sshFxpExtendedPacket` has no encoder.
unfoldable pub marshal_packet : Packet → Option (Bytes × Bytes)
unfolding marshal_id_string marshal_init marshal_symlink marshal_read marshal_rename marshal_write
    marshal_mkdir marshal_attrs_field marshal_open marshal_setstat marshal_fsetstat
marshal_packet (init version exts) = some (marshal_init version exts, [])
marshal_packet (lstat id path) = some (marshal_id_string Fxp.lstat id path, [])
marshal_packet (open_file id path pflags flags attrs) =
    some (marshal_open id path pflags flags, marshal_attrs_field flags attrs)
marshal_packet (close id handle) = some (marshal_id_string Fxp.close id handle, [])
marshal_packet (read id len offset handle) = some (marshal_read id len offset handle, [])
marshal_packet (write id len offset handle content) =
    some (marshal_write id len offset handle, content)
marshal_packet (fstat id handle) = some (marshal_id_string Fxp.fstat id handle, [])
marshal_packet (setstat id flags path attrs) =
    some (marshal_setstat id flags path, marshal_attrs_field flags attrs)
marshal_packet (fsetstat id flags handle attrs) =
    some (marshal_fsetstat id flags handle, marshal_attrs_field flags attrs)
marshal_packet (opendir id path) = some (marshal_id_string Fxp.opendir id path, [])
marshal_packet (readdir id handle) = some (marshal_id_string Fxp.readdir id handle, [])
marshal_packet (remove id filename) = some (marshal_id_string Fxp.remove id filename, [])
marshal_packet (mkdir id flags path) = some (marshal_mkdir id flags path, [])
marshal_packet (rmdir id path) = some (marshal_id_string Fxp.rmdir id path, [])
marshal_packet (realpath id path) = some (marshal_id_string Fxp.realpath id path, [])
marshal_packet (stat id path) = some (marshal_id_string Fxp.stat id path, [])
marshal_packet (rename id old new) = some (marshal_rename id old new, [])
marshal_packet (readlink id path) = some (marshal_id_string Fxp.readlink id path, [])
marshal_packet (symlink id target link) = some (marshal_symlink id target link, [])
marshal_packet (extended id request specific) = none
