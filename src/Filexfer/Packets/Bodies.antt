-- ===== src/Filexfer/Packets/Bodies.antt =====
-- internal/encoding/ssh/filexfer: the request packets as values of one type, which stands for the
-- interface `Packet`, with its methods `Type`, `MarshalPacket` and `UnmarshalPacketBody`;
-- and `newPacketFromType` of fxp.go.
use sftp_go.Base.{ℕ, Option, none, some, [], ◌==◌, if◌then◌else◌}
use sftp_go.Wire.{Bytes}
use sftp_go.Packet.Fxp
use sftp_go.Filexfer.Buffer.{Buffer}
use sftp_go.Filexfer.Attributes.{Attributes, no_attributes}
use sftp_go.Filexfer.Paths.{
  marshal_lstat_packet, unmarshal_lstat_packet, marshal_setstat_packet, unmarshal_setstat_packet,
  marshal_remove_packet, unmarshal_remove_packet, marshal_mkdir_packet, unmarshal_mkdir_packet,
  marshal_rmdir_packet, unmarshal_rmdir_packet, marshal_realpath_packet, unmarshal_realpath_packet,
  marshal_stat_packet, unmarshal_stat_packet, marshal_rename_packet, unmarshal_rename_packet,
  marshal_readlink_packet, unmarshal_readlink_packet, marshal_symlink_packet,
  unmarshal_symlink_packet,
}
use sftp_go.Filexfer.Handles.{
  marshal_close_packet, unmarshal_close_packet, marshal_read_packet, unmarshal_read_packet,
  marshal_write_packet, unmarshal_write_packet, marshal_fstat_packet, unmarshal_fstat_packet,
  marshal_fsetstat_packet, unmarshal_fsetstat_packet, marshal_readdir_packet,
  unmarshal_readdir_packet, marshal_open_packet, unmarshal_open_packet, marshal_opendir_packet,
  unmarshal_opendir_packet,
}
use sftp_go.Filexfer.Packets.{marshal_extended_packet, unmarshal_extended_packet}

-- The fields stand in the order of the source's structs; those of a SymlinkPacket in the order of
-- the wire.
pub data Body : Type 0 where
  open_packet : Bytes → ℕ → Attributes → Body
  close_packet : Bytes → Body
  read_packet : Bytes → ℕ → ℕ → Body
  write_packet : Bytes → ℕ → Bytes → Body
  lstat_packet : Bytes → Body
  fstat_packet : Bytes → Body
  setstat_packet : Bytes → Attributes → Body
  fsetstat_packet : Bytes → Attributes → Body
  opendir_packet : Bytes → Body
  readdir_packet : Bytes → Body
  remove_packet : Bytes → Body
  mkdir_packet : Bytes → Attributes → Body
  rmdir_packet : Bytes → Body
  realpath_packet : Bytes → Body
  stat_packet : Bytes → Body
  rename_packet : Bytes → Bytes → Body
  readlink_packet : Bytes → Body
  symlink_packet : Bytes → Bytes → Body
  extended_packet : Bytes → Option Buffer → Body

-- `Type`.
unfoldable pub body_type : Body → ℕ
body_type (open_packet filename pflags attrs) = Fxp.open_file
body_type (close_packet handle) = Fxp.close
body_type (read_packet handle offset len) = Fxp.read
body_type (write_packet handle offset content) = Fxp.write
body_type (lstat_packet path) = Fxp.lstat
body_type (fstat_packet handle) = Fxp.fstat
body_type (setstat_packet path attrs) = Fxp.setstat
body_type (fsetstat_packet handle attrs) = Fxp.fsetstat
body_type (opendir_packet path) = Fxp.opendir
body_type (readdir_packet handle) = Fxp.readdir
body_type (remove_packet path) = Fxp.remove
body_type (mkdir_packet path attrs) = Fxp.mkdir
body_type (rmdir_packet path) = Fxp.rmdir
body_type (realpath_packet path) = Fxp.realpath
body_type (stat_packet path) = Fxp.stat
body_type (rename_packet old new) = Fxp.rename
body_type (readlink_packet path) = Fxp.readlink
body_type (symlink_packet target link) = Fxp.symlink
body_type (extended_packet request extra) = Fxp.extended

-- `MarshalPacket`.
unfoldable pub marshal_body : Body → ℕ → ℕ → Bytes → Bytes × Bytes
marshal_body (open_packet filename pflags attrs) reqid capacity given =
    marshal_open_packet filename pflags attrs reqid capacity given
marshal_body (close_packet handle) reqid capacity given =
    marshal_close_packet handle reqid capacity given
marshal_body (read_packet handle offset len) reqid capacity given =
    marshal_read_packet handle offset len reqid capacity given
marshal_body (write_packet handle offset content) reqid capacity given =
    marshal_write_packet handle offset content reqid capacity given
marshal_body (lstat_packet path) reqid capacity given =
    marshal_lstat_packet path reqid capacity given
marshal_body (fstat_packet handle) reqid capacity given =
    marshal_fstat_packet handle reqid capacity given
marshal_body (setstat_packet path attrs) reqid capacity given =
    marshal_setstat_packet path attrs reqid capacity given
marshal_body (fsetstat_packet handle attrs) reqid capacity given =
    marshal_fsetstat_packet handle attrs reqid capacity given
marshal_body (opendir_packet path) reqid capacity given =
    marshal_opendir_packet path reqid capacity given
marshal_body (readdir_packet handle) reqid capacity given =
    marshal_readdir_packet handle reqid capacity given
marshal_body (remove_packet path) reqid capacity given =
    marshal_remove_packet path reqid capacity given
marshal_body (mkdir_packet path attrs) reqid capacity given =
    marshal_mkdir_packet path attrs reqid capacity given
marshal_body (rmdir_packet path) reqid capacity given =
    marshal_rmdir_packet path reqid capacity given
marshal_body (realpath_packet path) reqid capacity given =
    marshal_realpath_packet path reqid capacity given
marshal_body (stat_packet path) reqid capacity given = marshal_stat_packet path reqid capacity given
marshal_body (rename_packet old new) reqid capacity given =
    marshal_rename_packet old new reqid capacity given
marshal_body (readlink_packet path) reqid capacity given =
    marshal_readlink_packet path reqid capacity given
marshal_body (symlink_packet target link) reqid capacity given =
    marshal_symlink_packet target link reqid capacity given
marshal_body (extended_packet request extra) reqid capacity given =
    marshal_extended_packet request extra reqid capacity given

-- `newPacketFromType`: the packet with the zero values of its fields.
unfoldable pub new_packet_from_type : ℕ → Option Body
new_packet_from_type typ =
    if typ == Fxp.open_file
    then some (open_packet [] 0 no_attributes)
    else if typ == Fxp.close
    then some (close_packet [])
    else if typ == Fxp.read
    then some (read_packet [] 0 0)
    else if typ == Fxp.write
    then some (write_packet [] 0 [])
    else if typ == Fxp.lstat
    then some (lstat_packet [])
    else if typ == Fxp.fstat
    then some (fstat_packet [])
    else if typ == Fxp.setstat
    then some (setstat_packet [] no_attributes)
    else if typ == Fxp.fsetstat
    then some (fsetstat_packet [] no_attributes)
    else if typ == Fxp.opendir
    then some (opendir_packet [])
    else if typ == Fxp.readdir
    then some (readdir_packet [])
    else if typ == Fxp.remove
    then some (remove_packet [])
    else if typ == Fxp.mkdir
    then some (mkdir_packet [] no_attributes)
    else if typ == Fxp.rmdir
    then some (rmdir_packet [])
    else if typ == Fxp.realpath
    then some (realpath_packet [])
    else if typ == Fxp.stat
    then some (stat_packet [])
    else if typ == Fxp.rename
    then some (rename_packet [] [])
    else if typ == Fxp.readlink
    then some (readlink_packet [])
    else if typ == Fxp.symlink
    then some (symlink_packet [] [])
    else if typ == Fxp.extended
    then some (extended_packet [] none)
    else none

-- `UnmarshalPacketBody` on such a packet; a WritePacket's `Data` is the hint.
unfoldable pub unmarshal_body : Body → Buffer → Body × Buffer
unmarshal_body (open_packet filename0 pflags0 attrs0) b =
    let ((filename, pflags, attrs), b') = unmarshal_open_packet b in
    (open_packet filename pflags attrs, b')
unmarshal_body (close_packet handle0) b =
    let (handle, b') = unmarshal_close_packet b in (close_packet handle, b')
unmarshal_body (read_packet handle0 offset0 len0) b =
    let ((handle, offset, len), b') = unmarshal_read_packet b in (read_packet handle offset len, b')
unmarshal_body (write_packet handle0 offset0 content0) b =
    let ((handle, offset, content), b') = unmarshal_write_packet content0 b in
    (write_packet handle offset content, b')
unmarshal_body (lstat_packet path0) b =
    let (path, b') = unmarshal_lstat_packet b in (lstat_packet path, b')
unmarshal_body (fstat_packet handle0) b =
    let (handle, b') = unmarshal_fstat_packet b in (fstat_packet handle, b')
unmarshal_body (setstat_packet path0 attrs0) b =
    let ((path, attrs), b') = unmarshal_setstat_packet b in (setstat_packet path attrs, b')
unmarshal_body (fsetstat_packet handle0 attrs0) b =
    let ((handle, attrs), b') = unmarshal_fsetstat_packet b in (fsetstat_packet handle attrs, b')
unmarshal_body (opendir_packet path0) b =
    let (path, b') = unmarshal_opendir_packet b in (opendir_packet path, b')
unmarshal_body (readdir_packet handle0) b =
    let (handle, b') = unmarshal_readdir_packet b in (readdir_packet handle, b')
unmarshal_body (remove_packet path0) b =
    let (path, b') = unmarshal_remove_packet b in (remove_packet path, b')
unmarshal_body (mkdir_packet path0 attrs0) b =
    let ((path, attrs), b') = unmarshal_mkdir_packet b in (mkdir_packet path attrs, b')
unmarshal_body (rmdir_packet path0) b =
    let (path, b') = unmarshal_rmdir_packet b in (rmdir_packet path, b')
unmarshal_body (realpath_packet path0) b =
    let (path, b') = unmarshal_realpath_packet b in (realpath_packet path, b')
unmarshal_body (stat_packet path0) b =
    let (path, b') = unmarshal_stat_packet b in (stat_packet path, b')
unmarshal_body (rename_packet old0 new0) b =
    let ((old, new), b') = unmarshal_rename_packet b in (rename_packet old new, b')
unmarshal_body (readlink_packet path0) b =
    let (path, b') = unmarshal_readlink_packet b in (readlink_packet path, b')
unmarshal_body (symlink_packet target0 link0) b =
    let ((target, link), b') = unmarshal_symlink_packet b in (symlink_packet target link, b')
unmarshal_body (extended_packet request0 extra0) b =
    let ((request, extra), b') = unmarshal_extended_packet b in (extended_packet request extra, b')
