-- ===== src/Requests.antt =====
-- request.go: the request that the handlers of a request server see, made from a packet.
pub mod Confined
pub mod Listing
use sftp_go.Base.{ℕ, Option, none, some, List, []}
use sftp_go.Wire.{Bytes}
use sftp_go.Paths.{clean_path, clean_path_with_base}
use sftp_go.Packet.{
  Packet, Specific, AttrsField, raw, file_stat, file_info, other, posix_rename, hardlink, init,
  lstat, open_file, close, read, write, fstat, setstat, fsetstat, opendir, readdir, remove, mkdir,
  rmdir, realpath, stat, rename, readlink, symlink, extended, get_path,
}

-- `Request.Method`, a string in the source; `unset` is the empty one.
pub data Method : Type 0 where
  unset get put open_both list set_stat rename_path remove_dir make_dir hard_link : Method
  make_symlink remove_path posix_rename_path stat_vfs stat_path lstat_path : Method
  read_link : Method

-- `Request`, without its context and its readers and writers.
pub record Request : Type 0 where
  pub method : Method
  pub filepath : Bytes
  pub flags : ℕ
  pub attrs : Bytes
  pub target : Bytes
  pub handle : Bytes

-- The packet that the worker looks at: an extended packet's specific part in its place.
pub data Subject : Type 0 where
  plain : Packet → Subject
  specific : Specific → Subject

unfoldable pub subject_of : Packet → Subject
subject_of (extended id request (some p)) = specific p
subject_of p = plain p

-- `getPath` of the packets of `hasPath`.
unfoldable pub subject_path : Subject → Option Bytes
subject_path (plain p) = get_path p
subject_path (specific (posix_rename id ext old new)) = some old
subject_path (specific (hardlink id ext old new)) = some old
subject_path (specific p) = none

unfoldable pub request_method : Subject → Method
request_method (plain (setstat id flags path attrs)) = set_stat
request_method (plain (fsetstat id flags handle attrs)) = set_stat
request_method (plain (rename id old new)) = rename_path
request_method (plain (symlink id target link)) = make_symlink
request_method (plain (remove id filename)) = remove_path
request_method (plain (stat id path)) = stat_path
request_method (plain (fstat id handle)) = stat_path
request_method (plain (lstat id path)) = lstat_path
request_method (plain (rmdir id path)) = remove_dir
request_method (plain (readlink id path)) = read_link
request_method (plain (mkdir id flags path)) = make_dir
request_method (specific (hardlink id ext old new)) = hard_link
request_method p = unset

-- `NewRequest`.
unfoldable pub new_request : Method → Bytes → Request
new_request m path = record {
  method = m;
  filepath = clean_path path;
  flags = 0;
  attrs = [];
  target = [];
  handle = [];
}

-- `p.Attrs.([]byte)`, which panics on another type.
unfoldable pub attrs_bytes : AttrsField → Option Bytes
attrs_bytes (raw b) = some b
attrs_bytes (file_stat fs) = none
attrs_bytes (file_info fs) = none
attrs_bytes (other v) = none

-- The request with its flags and attributes, if they are bytes.
unfoldable pub with_attrs : Request → ℕ → AttrsField → Option Request
with_attrs r flags attrs = elim (attrs_bytes attrs) [
  | none ↦ none
  | some b ↦ some (record r { flags = flags; attrs = b })
]

-- The type switch of `requestFromPacket`.
unfoldable pub fill_request : Bytes → Subject → Request → Option Request
fill_request base (plain (open_file id path pflags flags attrs)) r = with_attrs r pflags attrs
fill_request base (plain (setstat id flags path attrs)) r = with_attrs r flags attrs
fill_request base (plain (rename id old new)) r =
    some (record r { target = clean_path_with_base base new })
fill_request base (plain (symlink id target link)) r =
    some (record r { target = clean_path_with_base base link; filepath = target })
fill_request base (specific (hardlink id ext old new)) r =
    some (record r { target = clean_path_with_base base new })
fill_request base p r = some r

-- `requestFromPacket`; `none` is a panic, or a packet without a path, which the worker does not
-- pass.
unfoldable pub request_from_packet : Bytes → Subject → Option Request
request_from_packet base p = elim (subject_path p) [
  | none ↦ none
  | some path ↦ fill_request base p (record {
    method = request_method p;
    filepath = clean_path_with_base base path;
    flags = 0;
    attrs = [];
    target = [];
    handle = [];
  })
]
