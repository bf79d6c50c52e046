-- ===== src/Server/Dispatch.antt =====
-- server.go: `handlePacket` and `sftpServerWorker`; and the `respond` methods of extended packets
-- and `getDataSlice` (packet.go, server_statvfs_impl.go).
use sftp_go.Base.{
  ℕ, Bool, true, not, ◌&&◌, Option, none, some, List, [], ◌∷◌, ◌%◌, ◌^◌, length, codes, ltb, ◌==◌,
  if◌then◌else◌,
}
use sftp_go.Wire.{Bytes}
use sftp_go.Value.{Values}
use sftp_go.Paths.{clean_path, to_local_path}
use sftp_go.Allocator.{Allocator, get_page}
use sftp_go.Packet.{
  Packet, ExtensionPair, Specific, posix_rename, hardlink, init, lstat, open_file, close, read,
  write, fstat, setstat, fsetstat, opendir, readdir, remove, mkdir, rmdir, realpath, stat, rename,
  readlink, symlink, extended, other, packet_id, not_read_only, specific_readonly,
}
use sftp_go.Packet
use sftp_go.Value
use sftp_go.Packet.Fxf
use sftp_go.Packet.Frame.{max_msg_length}
use sftp_go.Response.{Response, StatVfs}
use sftp_go.Server.{Result, good, bad, Os, Server, Handled, responds, crashes}
use sftp_go.Server.Errors.{GoError, errno, path_error, eof, fx, ebadf, enotdir, eperm}
use sftp_go.Server.Errors.Codes
use sftp_go.Server.Handles.{get_handle, close_handle}
use sftp_go.Server.Respond.{
  after_call, one_name, open_readonly, respond_open, respond_readdir, respond_setstat,
  respond_fsetstat, status_of,
}

-- sftp.go: `sftpProtocolVersion` and the extensions that a server announces by default.
abbrev pub sftp_protocol_version : ℕ
sftp_protocol_version = 3

abbrev pub sftp_extensions : List ExtensionPair
sftp_extensions =
    record { name = codes "hardlink@openssh.com"; value = codes "1" }
    ∷ record { name = codes "posix-rename@openssh.com"; value = codes "1" }
    ∷ record { name = codes "statvfs@openssh.com"; value = codes "2" }
    ∷ []

-- `getDataSlice`: how many bytes to read, and the allocator after it took a page; or the panic of a
-- slice longer than a page.
unfoldable pub get_data_slice : ℕ → Option Allocator → ℕ → ℕ → Option (ℕ × Option Allocator)
get_data_slice len alloc order_id max_tx =
    let data_len : ℕ = if ltb max_tx len then max_tx else len in
    elim alloc [
      | none ↦ some (data_len, none)
      | some a ↦
          if ltb max_msg_length data_len
          then none
          else some (data_len, some (get_page order_id a).1)
    ]

-- `readonly` of an extended packet.
unfoldable pub extended_readonly : Option Specific → Bool
extended_readonly none = true
extended_readonly (some s) = specific_readonly s

-- The worker's first switch: whether it takes a packet for one that changes nothing.
unfoldable pub seems_readonly : Packet → Bool
seems_readonly (open_file id path pflags flags attrs) = open_readonly pflags
seems_readonly (extended id request specific) = extended_readonly specific
seems_readonly p = not (not_read_only p)

module _ {W F I : Type 0} (os : Os W F I) where
  -- The answer to STAT, LSTAT and FSTAT.
  unfoldable pub stat_answer : ℕ → Server W F → Result I × W → Handled W F
  stat_answer id s (bad e, w) = after_call os id s (some e, w)
  stat_answer id s (good info, w) =
      responds (Response.attrs id (os.info_stat info).0 (os.info_stat info).1)
        (record s { world = w })

  unfoldable pub readlink_answer : ℕ → Server W F → Result Bytes × W → Handled W F
  readlink_answer id s (bad e, w) = after_call os id s (some e, w)
  readlink_answer id s (good f, w) = responds (one_name id f) (record s { world = w })

  unfoldable pub realpath_answer : ℕ → Server W F → Result Bytes × W → Handled W F
  realpath_answer id s (bad e, w) = after_call os id s (some e, w)
  realpath_answer id s (good f, w) = responds (one_name id (clean_path f)) (record s { world = w })

  -- OPENDIR after `os.Stat` of the local path.
  unfoldable pub opendir_answer : ℕ → Bytes → Server W F → Result I × W → Handled W F
  opendir_answer id path s (bad e, w) = after_call os id s (some e, w)
  opendir_answer id path s (good info, w) =
      if not (os.is_dir info)
      then after_call os id s (some (path_error (to_local_path s.work_dir path) (errno enotdir)), w)
      else respond_open os id path Fxf.read 0 (other Value.nil) (record s { world = w })

  unfoldable pub handle_close : ℕ → Bytes → Server W F → Handled W F
  handle_close id handle s =
      let (found, t) = close_handle handle s.handles in
      elim found [
        | none ↦ responds (status_of os id (some (errno ebadf))) s
        | some f ↦ after_call os id (record s { handles = t }) (os.file_close f s.world)
      ]

  -- READ after `f.ReadAt`: an end of file behind some bytes is no error.
  unfoldable pub read_answer :
      ℕ → Server W F → Option Allocator → (Bytes × Option GoError) × W → Handled W F
  read_answer id s alloc ((d, e), w) =
      let t : Server W F = record s { alloc = alloc; world = w } in
      let reply : Handled W F = responds (Response.content id (length d % 2 ^ 32) d) t in
      elim e [
        | none ↦ reply
        | some eof ↦ if length d == 0 then responds (status_of os id (some eof)) t else reply
        | some err ↦ responds (status_of os id (some err)) t
      ]

  unfoldable pub handle_read : ℕ → ℕ → ℕ → ℕ → Bytes → Server W F → Handled W F
  handle_read order_id id len offset handle s = elim (get_handle handle s.handles) [
    | none ↦ responds (status_of os id (some (errno ebadf))) s
    | some f ↦ elim (get_data_slice len s.alloc order_id s.max_tx_packet) [
      | none ↦ crashes
      | some (n, alloc) ↦ read_answer id s alloc (os.read_at f n offset s.world)
    ]
  ]

  unfoldable pub handle_write : ℕ → Bytes → Bytes → ℕ → Server W F → Handled W F
  handle_write id handle d offset s = elim (get_handle handle s.handles) [
    | none ↦ responds (status_of os id (some (errno ebadf))) s
    | some f ↦ after_call os id s (os.write_at f d offset s.world)
  ]

  -- The `respond` methods of the extended packets, with their own ids.
  unfoldable pub statvfs_answer : ℕ → Server W F → Result StatVfs × W → Handled W F
  statvfs_answer id s (bad e, w) = after_call os id s (some e, w)
  statvfs_answer id s (good v, w) =
      responds (Response.statvfs (record v { id = id })) (record s { world = w })

  unfoldable pub respond_extended : Specific → Server W F → Handled W F
  respond_extended (Packet.statvfs id ext path) s = statvfs_answer id s (os.statvfs path s.world)
  respond_extended (posix_rename id ext old new) s =
      after_call os id s
        (os.rename (to_local_path s.work_dir old) (to_local_path s.work_dir new) s.world)
  respond_extended (hardlink id ext old new) s =
      after_call os id s
        (os.link (to_local_path s.work_dir old) (to_local_path s.work_dir new) s.world)

  -- `handlePacket`, for the request of an order id.
  unfoldable pub handle_packet : ℕ → Packet → Server W F → Handled W F
  handle_packet order_id (init version exts) s =
      responds (Response.version sftp_protocol_version sftp_extensions) s
  handle_packet order_id (stat id path) s =
      stat_answer id s (os.stat (to_local_path s.work_dir path) s.world)
  handle_packet order_id (lstat id path) s =
      stat_answer id s (os.lstat (to_local_path s.work_dir path) s.world)
  handle_packet order_id (fstat id handle) s = elim (get_handle handle s.handles) [
    | none ↦ responds (status_of os id (some (errno ebadf))) s
    | some f ↦ stat_answer id s (os.file_stat f s.world)
  ]
  handle_packet order_id (mkdir id flags path) s =
      after_call os id s (os.make_dir (to_local_path s.work_dir path) 0x1ed s.world)
  handle_packet order_id (rmdir id path) s =
      after_call os id s (os.remove (to_local_path s.work_dir path) s.world)
  handle_packet order_id (remove id filename) s =
      after_call os id s (os.remove (to_local_path s.work_dir filename) s.world)
  handle_packet order_id (rename id old new) s =
      after_call os id s
        (os.rename (to_local_path s.work_dir old) (to_local_path s.work_dir new) s.world)
  handle_packet order_id (symlink id target link) s =
      after_call os id s
        (os.symlink (to_local_path s.work_dir target) (to_local_path s.work_dir link) s.world)
  handle_packet order_id (close id handle) s = handle_close id handle s
  handle_packet order_id (readlink id path) s =
      readlink_answer id s (os.readlink (to_local_path s.work_dir path) s.world)
  handle_packet order_id (realpath id path) s =
      realpath_answer id s (os.abs_path (to_local_path s.work_dir path) s.world)
  handle_packet order_id (opendir id path) s =
      opendir_answer id path s (os.stat (to_local_path s.work_dir path) s.world)
  handle_packet order_id (read id len offset handle) s = handle_read order_id id len offset handle s
  handle_packet order_id (write id len offset handle content) s =
      handle_write id handle content offset s
  handle_packet order_id (extended id request specific) s = elim specific [
    | none ↦ responds (status_of os id (some (fx Codes.op_unsupported))) s
    | some p ↦ respond_extended p s
  ]
  handle_packet order_id (open_file id path pflags flags attrs) s =
      respond_open os id path pflags flags attrs s
  handle_packet order_id (readdir id handle) s = respond_readdir os id handle s
  handle_packet order_id (setstat id flags path attrs) s = respond_setstat os id flags path attrs s
  handle_packet order_id (fsetstat id flags handle attrs) s =
      respond_fsetstat os id flags handle attrs s

  -- One round of `sftpServerWorker`.
  unfoldable pub serve_packet : ℕ → Packet → Server W F → Handled W F
  serve_packet order_id p s =
      let handled = handle_packet order_id p s in
      if not (seems_readonly p) && s.read_only
      then responds (status_of os (packet_id p) (some (errno eperm))) s
      else handled
