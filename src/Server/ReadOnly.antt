-- ===== src/Server/ReadOnly.antt =====
-- server.go: what a server that was made `ReadOnly` still changes.
pub mod Guard
use sftp_go.Base.{
  ℕ, ◌≡◌, refl, sym, ◌∙◌, arith, Bool, true, false, not, ◌&&◌, ◌||◌, Bool-cases, inl, inr, Option,
  none, some, Option-cases, List, length, ◌==◌, if◌then◌else◌,
}
use sftp_go.Wire.{Bytes}
use sftp_go.Attrs.{attr_permissions, has_any}
use sftp_go.Packet.{
  Packet, Specific, posix_rename, hardlink, init, lstat, open_file, close, read, write, fstat,
  setstat, fsetstat, opendir, readdir, remove, mkdir, rmdir, realpath, stat, rename, readlink,
  symlink, extended, AttrsField, not_read_only, specific_readonly,
}
use sftp_go.Packet
use sftp_go.Packet.Fxf
use sftp_go.Allocator.{Allocator}
use sftp_go.Response.{StatVfs}
use sftp_go.Server.{
  Result, good, bad, Access, rdonly, Os, OsFlags, Server, Handled, responds, crashes,
}
use sftp_go.Server.Errors.{GoError, eof}
use sftp_go.Server.Handles.{get_handle, close_handle}
use sftp_go.Server.Respond.{
  has_pflag, open_access, os_flags, attrs_file_stat, opened, open_with, after_call, status_of,
  listed, respond_open, respond_readdir,
}
use sftp_go.Server.Replies.{attrs_cases}
use sftp_go.Server.Dispatch.{
  get_data_slice, stat_answer, readlink_answer, realpath_answer, opendir_answer, handle_close,
  read_answer, handle_read, statvfs_answer, respond_extended, handle_packet, serve_packet,
  seems_readonly, extended_readonly,
}

-- The requests that the worker takes for harmless and that are not: an open that creates or
-- truncates the file without writing, and a hard link.
unfoldable pub slips_through : Packet → Bool
slips_through (open_file id path pflags flags attrs) =
    has_pflag pflags Fxf.creat || has_pflag pflags Fxf.trunc
slips_through (extended id request (some (hardlink id' ext old new))) = true
slips_through p = false

-- The system's calls that only look leave `content` as it is; so does opening a file for reading
-- that neither creates nor truncates it.
pub record OnlyLooks {W F I C : Type 0} (os : Os W F I) (content : W → C) : Type 0 where
  pub stat_keeps : (p : Bytes) (w : W) → content (os.stat p w).1 ≡ content w
  pub lstat_keeps : (p : Bytes) (w : W) → content (os.lstat p w).1 ≡ content w
  pub readlink_keeps : (p : Bytes) (w : W) → content (os.readlink p w).1 ≡ content w
  pub abs_path_keeps : (p : Bytes) (w : W) → content (os.abs_path p w).1 ≡ content w
  pub statvfs_keeps : (p : Bytes) (w : W) → content (os.statvfs p w).1 ≡ content w
  pub file_stat_keeps : (f : F) (w : W) → content (os.file_stat f w).1 ≡ content w
  pub file_close_keeps : (f : F) (w : W) → content (os.file_close f w).1 ≡ content w
  pub read_at_keeps :
      (f : F) (n offset : ℕ) (w : W) → content (os.read_at f n offset w).1 ≡ content w
  pub read_dir_keeps : (f : F) (n : ℕ) (w : W) → content (os.read_dir f n w).1 ≡ content w
  pub open_file_keeps :
      (p : Bytes) (flags : OsFlags) (mode : ℕ) (w : W)
      → flags.access ≡ rdonly
      → flags.create ≡ false
      → flags.trunc ≡ false
      → content (os.open_file p flags mode w).1 ≡ content w

-- The content after the request is what it was.
abbrev pub Keeps : {W F C : Type 0} → (W → C) → C → Handled W F → Type 0
Keeps content c (responds r s') = content s'.world ≡ c
Keeps content c crashes = Unit {0}

module _ {W F I C : Type 0} (os : Os W F I) (content : W → C) (laws : OnlyLooks os content) where
  pub after_call-Keeps :
      (c : C) (id : ℕ) (s : Server W F) (r : Option GoError × W)
      → content r.1 ≡ c
      → Keeps content c (after_call os id s r)
  after_call-Keeps c id s (e, w) h = h

  pub stat-Keeps :
      (c : C) (id : ℕ) (s : Server W F) (r : Result I × W)
      → content r.1 ≡ c
      → Keeps content c (stat_answer os id s r)
  unfolding stat_answer
  stat-Keeps c id s (good i, w) h = h
  stat-Keeps c id s (bad e, w) h = h

  pub readlink-Keeps :
      (c : C) (id : ℕ) (s : Server W F) (r : Result Bytes × W)
      → content r.1 ≡ c
      → Keeps content c (readlink_answer os id s r)
  unfolding readlink_answer
  readlink-Keeps c id s (good f, w) h = h
  readlink-Keeps c id s (bad e, w) h = h

  pub realpath-Keeps :
      (c : C) (id : ℕ) (s : Server W F) (r : Result Bytes × W)
      → content r.1 ≡ c
      → Keeps content c (realpath_answer os id s r)
  unfolding realpath_answer
  realpath-Keeps c id s (good f, w) h = h
  realpath-Keeps c id s (bad e, w) h = h

  pub listed-Keeps :
      (c : C) (id : ℕ) (s : Server W F) (r : Result (List I) × W)
      → content r.1 ≡ c
      → Keeps content c (listed os id s r)
  unfolding listed
  listed-Keeps c id s (good infos, w) h = h
  listed-Keeps c id s (bad e, w) h = h

  opened-Keeps :
      (c : C) (id : ℕ) (s : Server W F) (r : Result F × W)
      → content r.1 ≡ c
      → Keeps content c (opened os id s r)
  unfolding opened
  opened-Keeps c id s (good f, w) h = h
  opened-Keeps c id s (bad e, w) h = h

  pub statvfs-Keeps :
      (c : C) (id : ℕ) (s : Server W F) (r : Result StatVfs × W)
      → content r.1 ≡ c
      → Keeps content c (statvfs_answer os id s r)
  unfolding statvfs_answer
  statvfs-Keeps c id s (good v, w) h = h
  statvfs-Keeps c id s (bad e, w) h = h

  pub read-Keeps :
      (c : C) (id : ℕ) (s : Server W F) (alloc : Option Allocator)
      (r : (Bytes × Option GoError) × W)
      → content r.1 ≡ c
      → Keeps content c (read_answer os id s alloc r)
  unfolding read_answer
  read-Keeps c id s alloc ((d, none), w) h = h
  read-Keeps c id s alloc ((d, some eof), w) h = elim (Bool-cases (length d == 0)) [
    | inl z ↦ rw (read_answer, z) h
    | inr z ↦ rw (read_answer, z) h
  ]
  read-Keeps c id s alloc ((d, some e), w) h = h

  -- An open request without the write flag asks for reading, or for nothing.
  only_reads :
      (pflags : ℕ) (access : Access)
      → has_pflag pflags Fxf.write ≡ false
      → open_access pflags ≡ some access
      → access ≡ rdonly
  unfolding open_access
  only_reads pflags access h e = ground arith

  pub open-Keeps :
      (id : ℕ) (path : Bytes) (pflags flags : ℕ) (attrs : AttrsField) (s : Server W F)
      → has_pflag pflags Fxf.write ≡ false
      → has_pflag pflags Fxf.creat ≡ false
      → has_pflag pflags Fxf.trunc ≡ false
      → Keeps content (content s.world) (respond_open os id path pflags flags attrs s)
  unfolding respond_open open_with os_flags
  open-Keeps id path pflags flags attrs s hw hc ht = elim (Option-cases (open_access pflags)) [
    | inl e ↦ rw (respond_open, e) refl
    | inr (access, e) ↦
        let asks : access ≡ rdonly = only_reads pflags access hw e in
        let reads = λ (p : Bytes) (mode : ℕ).
          laws.open_file_keeps p (os_flags pflags access) mode s.world asks hc ht in
        elim (Bool-cases (has_any flags attr_permissions)) [
          | inl p ↦ elim (attrs_cases os flags attrs) [
            | inl (fs, a) ↦ rw (respond_open, e, p, a) (opened-Keeps _ id s _ (reads _ _))
            | inr (err, a) ↦ rw (respond_open, e, p, a) refl
          ]
          | inr p ↦ rw (respond_open, e, p) (opened-Keeps _ id s _ (reads _ _))
        ]
  ]
