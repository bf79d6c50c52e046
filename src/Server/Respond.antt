-- ===== src/Server/Respond.antt =====
-- server.go: the `respond` methods, and `getDataSlice` (packet.go).
use sftp_go.Base.{
  ℕ, bit_and, Bool, not, ◌&&◌, Option, none, some, List, [], ◌∷◌, map, if◌then◌else◌,
}
use sftp_go.Wire.{Bytes, ok, fail, panic}
use sftp_go.Attrs.{
  FileStat, attr_size, attr_uidgid, attr_permissions, attr_acmodtime, has_any, unmarshal_file_stat,
}
use sftp_go.Value.{Values, end, field}
use sftp_go.Value
use sftp_go.Modes.{to_file_mode}
use sftp_go.Modes.Os
use sftp_go.Paths.{to_local_path}
use sftp_go.Packet.{AttrsField, raw, file_stat, file_info, other}
use sftp_go.Packet.Fxf
use sftp_go.Response.{Response, NameAttr}
use sftp_go.Server.{
  Result, good, bad, Access, rdonly, wronly, rdwr, OsFlags, Os, Server, Handled, responds, crashes,
}
use sftp_go.Server.Errors.{GoError, errno, einval, ebadf, status_from_error}
use sftp_go.Server.Errors
use sftp_go.Server.Handles.{next_handle, get_handle}

-- `hasPflags` on one flag; with several it asks for each.
abbrev pub has_pflag : ℕ → ℕ → Bool
has_pflag pflags f = has_any pflags f

-- `sshFxpOpenPacket.readonly`.
abbrev pub open_readonly : ℕ → Bool
open_readonly pflags = not (has_pflag pflags Fxf.write)

-- The access of an open request, if it asks for any.
unfoldable pub open_access : ℕ → Option Access
open_access pflags =
    if has_pflag pflags Fxf.read && has_pflag pflags Fxf.write
    then some rdwr
    else if has_pflag pflags Fxf.write
    then some wronly
    else if has_pflag pflags Fxf.read
    then some rdonly
    else none

unfoldable pub os_flags : ℕ → Access → OsFlags
os_flags pflags access = record {
  access = access;
  create = has_pflag pflags Fxf.creat;
  trunc = has_pflag pflags Fxf.trunc;
  excl = has_pflag pflags Fxf.excl;
}

-- `p.unmarshalFileStat`; the outer `none` is a panic of the decoder.
unfoldable pub attrs_file_stat : ℕ → AttrsField → Option (Result FileStat)
attrs_file_stat flags (file_stat fs) = some (good fs)
attrs_file_stat flags (raw b) = elim (unmarshal_file_stat flags b) [
  | ok fs rest ↦ some (good fs)
  | fail e ↦ some (bad (Errors.wire e))
  | panic ↦ none
]
attrs_file_stat flags (file_info fs) = some (bad (Errors.other 0))
attrs_file_stat flags (other v) = some (bad (Errors.other 0))

-- `if err == nil && flags&m != 0 { err = … }`.
unfoldable pub when_set :
    {W : Type 0} → ℕ → ℕ → (W → Option GoError × W) → Option GoError × W → Option GoError × W
when_set flags m call (none, w) = if has_any flags m then call w else (none, w)
when_set flags m call (some e, w) = (some e, w)

-- `emptyFileStat`: one uint32 zero.
abbrev pub empty_file_stat : Values
empty_file_stat = field (Value.uint32 0) end

-- The name packet with one name, as READLINK and REALPATH answer.
abbrev pub one_name : ℕ → Bytes → Response
one_name id f = Response.name id (record { name = f; long_name = f; attrs = empty_file_stat } ∷ [])

module _ {W F I : Type 0} (os : Os W F I) where
  -- `statusFromError` with the texts of the system.
  abbrev pub status_of : ℕ → Option GoError → Response
  status_of id e = status_from_error os.error_text id e

  -- `rpkt = statusFromError(p.ID, err)` after a call that has no value.
  abbrev pub after_call : ℕ → Server W F → Option GoError × W → Handled W F
  after_call id s (e, w) = responds (status_of id e) (record s { world = w })

  -- What follows `os.OpenFile`: the file gets a handle.
  unfoldable pub opened : ℕ → Server W F → Result F × W → Handled W F
  opened id s (bad e, w) = after_call id s (some e, w)
  opened id s (good f, w) =
      let (handle, t) = next_handle f s.handles in
      responds (Response.handle id handle) (record s { handles = t; world = w })

  unfoldable pub open_with : ℕ → Bytes → OsFlags → ℕ → Server W F → Handled W F
  open_with id path flags mode s =
      opened id s (os.open_file (to_local_path s.work_dir path) flags mode s.world)

  -- `sshFxpOpenPacket.respond`.
  unfoldable pub respond_open : ℕ → Bytes → ℕ → ℕ → AttrsField → Server W F → Handled W F
  respond_open id path pflags flags attrs s = elim (open_access pflags) [
    | none ↦ responds (status_of id (some (errno einval))) s
    | some access ↦
        if has_any flags attr_permissions
        then elim (attrs_file_stat flags attrs) [
          | none ↦ crashes
          | some (bad e) ↦ responds (status_of id (some e)) s
          | some (good fs) ↦
              open_with id path (os_flags pflags access)
                (bit_and (to_file_mode fs.mode) Os.mode_perm) s
        ]
        else open_with id path (os_flags pflags access) 0x1a4 s
  ]

  name_attr : I → NameAttr
  name_attr info = record {
    name = os.info_name info;
    long_name = os.run_ls info;
    attrs = field (Value.file_info (os.info_stat info).0 (os.info_stat info).1) end;
  }

  -- What follows `f.Readdir`.
  unfoldable pub listed : ℕ → Server W F → Result (List I) × W → Handled W F
  unfolding name_attr
  listed id s (bad e, w) = after_call id s (some e, w)
  listed id s (good infos, w) =
      responds (Response.name id (map name_attr infos)) (record s { world = w })

  -- `sshFxpReaddirPacket.respond`.
  unfoldable pub respond_readdir : ℕ → Bytes → Server W F → Handled W F
  respond_readdir id handle s = elim (get_handle handle s.handles) [
    | none ↦ responds (status_of id (some (errno ebadf))) s
    | some f ↦ listed id s (os.read_dir f 128 s.world)
  ]

  -- `sshFxpSetstatPacket.respond`.
  unfoldable pub set_stat : Bytes → ℕ → FileStat → W → Option GoError × W
  set_stat path flags fs w = when_set flags attr_acmodtime (os.chtimes path fs.atime fs.mtime) (
      when_set flags attr_uidgid (os.chown path fs.uid fs.gid) (
        when_set flags attr_permissions (os.chmod path (to_file_mode fs.mode))
          (when_set flags attr_size (os.truncate path fs.size) (none, w))))

  unfoldable pub respond_setstat : ℕ → ℕ → Bytes → AttrsField → Server W F → Handled W F
  respond_setstat id flags path attrs s = elim (attrs_file_stat flags attrs) [
    | none ↦ crashes
    | some (bad e) ↦ responds (status_of id (some e)) s
    | some (good fs) ↦ after_call id s (set_stat (to_local_path s.work_dir path) flags fs s.world)
  ]

  -- `sshFxpFsetstatPacket.respond`. `*os.File` has no `Chtimes`, so the last call takes the name.
  unfoldable pub file_set_stat : F → ℕ → FileStat → W → Option GoError × W
  file_set_stat f flags fs w =
      when_set flags attr_acmodtime (os.chtimes (os.file_name f) fs.atime fs.mtime) (
        when_set flags attr_uidgid (os.file_chown f fs.uid fs.gid) (
          when_set flags attr_permissions (os.file_chmod f (to_file_mode fs.mode))
            (when_set flags attr_size (os.file_truncate f fs.size) (none, w))))

  unfoldable pub respond_fsetstat : ℕ → ℕ → Bytes → AttrsField → Server W F → Handled W F
  respond_fsetstat id flags handle attrs s = elim (get_handle handle s.handles) [
    | none ↦ responds (status_of id (some (errno ebadf))) s
    | some f ↦ elim (attrs_file_stat flags attrs) [
      | none ↦ crashes
      | some (bad e) ↦ responds (status_of id (some e)) s
      | some (good fs) ↦ after_call id s (file_set_stat f flags fs s.world)
    ]
  ]
