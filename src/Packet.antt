-- ===== src/Packet.antt =====
-- packet.go and packet-typing.go: the request packets, their types on the wire, and the interface
-- methods `id`, `getPath`, `getHandle`, `notReadOnly` and `readonly`.
pub mod Fxp
pub mod Fxf
pub mod Decode
pub mod Encode
pub mod Frame
pub mod Incoming
use sftp_go.Base.{ℕ, bit_and, Bool, true, false, not, Option, none, some, List, [], ◌∷◌, ◌==◌}
use sftp_go.Base.{if◌then◌else◌}
use sftp_go.Wire.{Bytes}
use sftp_go.Attrs.{FileStat}
use sftp_go.Value.{Value}

pub record ExtensionPair : Type 0 where
  pub name : Bytes
  pub value : Bytes

-- The `Attrs interface{}` field: the decoder stores the raw bytes, the client a `*FileStat`, an
-- `os.FileInfo` (here the FileStat that `fileStatFromInfo` makes of it) or another value.
pub data AttrsField : Type 0 where
  raw : Bytes → AttrsField
  file_stat : FileStat → AttrsField
  file_info : FileStat → AttrsField
  other : Value → AttrsField

-- `SpecificPacket`: ID, ExtendedRequest, and the paths.
pub data Specific : Type 0 where
  statvfs : ℕ → Bytes → Bytes → Specific
  posix_rename : ℕ → Bytes → Bytes → Bytes → Specific
  hardlink : ℕ → Bytes → Bytes → Bytes → Specific

-- The fields stand in the order of the source's structs.
pub data Packet : Type 0 where
  init : ℕ → List ExtensionPair → Packet
  lstat : ℕ → Bytes → Packet
  open_file : ℕ → Bytes → ℕ → ℕ → AttrsField → Packet
  close : ℕ → Bytes → Packet
  read : ℕ → ℕ → ℕ → Bytes → Packet
  write : ℕ → ℕ → ℕ → Bytes → Bytes → Packet
  fstat : ℕ → Bytes → Packet
  setstat : ℕ → ℕ → Bytes → AttrsField → Packet
  fsetstat : ℕ → ℕ → Bytes → AttrsField → Packet
  opendir : ℕ → Bytes → Packet
  readdir : ℕ → Bytes → Packet
  remove : ℕ → Bytes → Packet
  mkdir : ℕ → ℕ → Bytes → Packet
  rmdir : ℕ → Bytes → Packet
  realpath : ℕ → Bytes → Packet
  stat : ℕ → Bytes → Packet
  rename : ℕ → Bytes → Bytes → Packet
  readlink : ℕ → Bytes → Packet
  symlink : ℕ → Bytes → Bytes → Packet
  extended : ℕ → Bytes → Option Specific → Packet

-- The specific packet's own `id` and `readonly`.
unfoldable pub specific_id : Specific → ℕ
specific_id (statvfs id ext path) = id
specific_id (posix_rename id ext old new) = id
specific_id (hardlink id ext old new) = id

unfoldable pub specific_readonly : Specific → Bool
specific_readonly (statvfs id ext path) = true
specific_readonly (posix_rename id ext old new) = false
specific_readonly (hardlink id ext old new) = true

-- `id()`.
unfoldable pub packet_id : Packet → ℕ
packet_id (init version exts) = 0
packet_id (lstat id path) = id
packet_id (open_file id path pflags flags attrs) = id
packet_id (close id handle) = id
packet_id (read id len offset handle) = id
packet_id (write id len offset handle content) = id
packet_id (fstat id handle) = id
packet_id (setstat id flags path attrs) = id
packet_id (fsetstat id flags handle attrs) = id
packet_id (opendir id path) = id
packet_id (readdir id handle) = id
packet_id (remove id filename) = id
packet_id (mkdir id flags path) = id
packet_id (rmdir id path) = id
packet_id (realpath id path) = id
packet_id (stat id path) = id
packet_id (rename id old new) = id
packet_id (readlink id path) = id
packet_id (symlink id target link) = id
packet_id (extended id request specific) = id

-- The packets of `hasPath`, with `getPath()`.
unfoldable pub get_path : Packet → Option Bytes
get_path (lstat id path) = some path
get_path (stat id path) = some path
get_path (rmdir id path) = some path
get_path (readlink id path) = some path
get_path (realpath id path) = some path
get_path (mkdir id flags path) = some path
get_path (setstat id flags path attrs) = some path
get_path (remove id filename) = some filename
get_path (rename id old new) = some old
get_path (symlink id target link) = some target
get_path (opendir id path) = some path
get_path (open_file id path pflags flags attrs) = some path
get_path _ = none

-- The packets of `hasHandle`, with `getHandle()`.
unfoldable pub get_handle : Packet → Option Bytes
get_handle (fstat id handle) = some handle
get_handle (fsetstat id flags handle attrs) = some handle
get_handle (read id len offset handle) = some handle
get_handle (write id len offset handle content) = some handle
get_handle (readdir id handle) = some handle
get_handle (close id handle) = some handle
get_handle _ = none

-- The packets of `notReadOnly`. (`sshFxpExtendedPacketPosixRename` and
-- `sshFxpExtendedPacketHardlink` have the method too, and arrive inside an `extended`.)
unfoldable pub not_read_only : Packet → Bool
not_read_only (write id len offset handle content) = true
not_read_only (setstat id flags path attrs) = true
not_read_only (fsetstat id flags handle attrs) = true
not_read_only (remove id filename) = true
not_read_only (mkdir id flags path) = true
not_read_only (rmdir id path) = true
not_read_only (rename id old new) = true
not_read_only (symlink id target link) = true
not_read_only _ = false
