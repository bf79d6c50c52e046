-- ===== src/Server/Replies/Dispatched.antt =====
-- `handlePacket` and the worker: the reply to every kind of request.
use sftp_go.Base.{
  ℕ, ◌≡◌, refl, sym, arith, false, not, ◌&&◌, Bool-cases, inl, inr, Option, none, some,
  Option-cases, length, ltb, ◌==◌, if◌then◌else◌,
}
use sftp_go.Wire.{Bytes}
use sftp_go.Allocator.{Allocator}
use sftp_go.Packet.{
  Packet, Specific, specific_id, posix_rename, hardlink, init, lstat, open_file, close, read, write,
  fstat, setstat, fsetstat, opendir, readdir, remove, mkdir, rmdir, realpath, stat, rename,
  readlink, symlink, extended, packet_id, AttrsField, raw, file_stat, file_info, other,
}
use sftp_go.Packet
use sftp_go.Packet.Frame.{max_msg_length}
use sftp_go.Response.{Response, response_id}
use sftp_go.Response
use sftp_go.Server.{Result, good, bad, Os, Server}
use sftp_go.Server.Errors.{GoError, eof}
use sftp_go.Server.Handles.{close_handle, get_handle}
use sftp_go.Server.Dispatch.{
  get_data_slice, opendir_answer, handle_close, read_answer, handle_read, handle_write,
  statvfs_answer, respond_extended, handle_packet, serve_packet, seems_readonly,
}
use sftp_go.Packet.Decode.Ids.{SameId}
use sftp_go.Server.Replies.{
  stays, closes, Replied, FitsPage, status_id, status_Replied, after_call-Replied, stat_Replied,
  readlink_Replied, realpath_Replied, open_Replied, readdir_Replied, setstat_Replied,
  fsetstat_Replied,
}

module _ {W F I : Type 0} (os : Os W F I) where
  -- The world may change before the handler that replies.
  opendir_Replied :
      (id : ℕ) (path : Bytes) (s : Server W F) (r : Result I × W)
      → Replied id s (opendir_answer os id path s r)
  unfolding opendir_answer
  opendir_Replied id path s (bad e, w) = after_call-Replied os id s (some e, w)
  opendir_Replied id path s (good info, w) = elim (Bool-cases (os.is_dir info)) [
    | inl d ↦ rw (opendir_answer, d) (open_Replied os id path _ _ _ (record s { world = w }))
    | inr d ↦ rw (opendir_answer, d) (after_call-Replied os id s (some _, w))
  ]

  close_Replied :
      (id : ℕ) (handle : Bytes) (s : Server W F) → Replied id s (handle_close os id handle s)
  unfolding handle_close
  close_Replied id handle s = elim (Option-cases (close_handle handle s.handles).0) [
    | inl e ↦ rw (handle_close, e) (status_Replied os id _ s)
    | inr (f, e) ↦ rw (handle_close, e) (status_id os id _, closes handle, refl, refl, refl)
  ]

  read_Replied :
      (id : ℕ) (s : Server W F) (alloc : Option Allocator) (r : (Bytes × Option GoError) × W)
      → Replied id s (read_answer os id s alloc r)
  unfolding read_answer response_id
  read_Replied id s alloc ((d, none), w) = (refl, stays, refl, refl, refl)
  read_Replied id s alloc ((d, some eof), w) = elim (Bool-cases (length d == 0)) [
    | inl z ↦
        rw (read_answer, z)
          (status_Replied os id (some eof) (record s { alloc = alloc; world = w }))
    | inr z ↦ rw (read_answer, z) (refl, stays, refl, refl, refl)
  ]
  read_Replied id s alloc ((d, some e), w) =
      status_Replied os id (some e) (record s { alloc = alloc; world = w })

  slice_fits :
      (order_id len : ℕ) (s : Server W F)
      → FitsPage s
      → (r : ℕ × Option Allocator) × (get_data_slice len s.alloc order_id s.max_tx_packet ≡ some r)
  unfolding get_data_slice
  slice_fits order_id len s (inl e) = rw (get_data_slice, e) (_, refl)
  slice_fits order_id len s (inr h) = elim (Option-cases s.alloc) [
    | inl e ↦ rw (get_data_slice, e) (_, refl)
    | inr (a, e) ↦
        let short : ltb max_msg_length (if ltb s.max_tx_packet len then s.max_tx_packet else len)
            ≡ false =
          ground arith in
        rw (get_data_slice, e, short) (_, refl)
  ]

  handle_read-Replied :
      (order_id id len offset : ℕ) (handle : Bytes) (s : Server W F)
      → FitsPage s
      → Replied id s (handle_read os order_id id len offset handle s)
  unfolding handle_read
  handle_read-Replied order_id id len offset handle s fits =
      elim (Option-cases (get_handle handle s.handles)) [
        | inl e ↦ rw (handle_read, e) (status_Replied os id _ s)
        | inr (f, e) ↦
            let (r, slice) = slice_fits order_id len s fits in
            rw (handle_read, e, slice) (read_Replied id s _ _)
      ]

  write_Replied :
      (id : ℕ) (handle d : Bytes) (offset : ℕ) (s : Server W F)
      → Replied id s (handle_write os id handle d offset s)
  unfolding handle_write
  write_Replied id handle d offset s = elim (Option-cases (get_handle handle s.handles)) [
    | inl e ↦ rw (handle_write, e) (status_Replied os id _ s)
    | inr (f, e) ↦
        rw (handle_write, e) (after_call-Replied os id s (os.write_at f d offset s.world))
  ]

  statvfs_Replied :
      (id : ℕ) (s : Server W F) (r : Result Response.StatVfs × W)
      → Replied id s (statvfs_answer os id s r)
  unfolding statvfs_answer response_id
  statvfs_Replied id s (good v, w) = (refl, stays, refl, refl, refl)
  statvfs_Replied id s (bad e, w) = after_call-Replied os id s (some e, w)

  extended_Replied :
      (p : Specific) (s : Server W F) → Replied (specific_id p) s (respond_extended os p s)
  unfolding respond_extended specific_id
  extended_Replied (Packet.statvfs id ext path) s = statvfs_Replied id s _
  extended_Replied (posix_rename id ext old new) s = after_call-Replied os id s (_, s.world)
  extended_Replied (hardlink id ext old new) s = after_call-Replied os id s (_, s.world)

  handle_packet-Replied :
      (order_id : ℕ) (p : Packet) (s : Server W F)
      → SameId p
      → FitsPage s
      → Replied (packet_id p) s (handle_packet os order_id p s)
  unfolding handle_packet packet_id response_id
  handle_packet-Replied order_id (init version exts) s h k = (refl, stays, refl, refl, refl)
  handle_packet-Replied order_id (stat id path) s h k = stat_Replied os id s _
  handle_packet-Replied order_id (lstat id path) s h k = stat_Replied os id s _
  handle_packet-Replied order_id (fstat id handle) s h k =
      elim (Option-cases (get_handle handle s.handles)) [
        | inl e ↦ rw (handle_packet, e) (status_Replied os id _ s)
        | inr (f, e) ↦ rw (handle_packet, e) (stat_Replied os id s _)
      ]
  handle_packet-Replied order_id (mkdir id flags path) s h k =
      after_call-Replied os id s (_, s.world)
  handle_packet-Replied order_id (rmdir id path) s h k = after_call-Replied os id s (_, s.world)
  handle_packet-Replied order_id (remove id filename) s h k =
      after_call-Replied os id s (_, s.world)
  handle_packet-Replied order_id (rename id old new) s h k = after_call-Replied os id s (_, s.world)
  handle_packet-Replied order_id (symlink id target link) s h k =
      after_call-Replied os id s (_, s.world)
  handle_packet-Replied order_id (close id handle) s h k = close_Replied id handle s
  handle_packet-Replied order_id (readlink id path) s h k = readlink_Replied os id s _
  handle_packet-Replied order_id (realpath id path) s h k = realpath_Replied os id s _
  handle_packet-Replied order_id (opendir id path) s h k = opendir_Replied id path s _
  handle_packet-Replied order_id (read id len offset handle) s h k =
      handle_read-Replied order_id id len offset handle s k
  handle_packet-Replied order_id (write id len offset handle content) s h k =
      write_Replied id handle content offset s
  handle_packet-Replied order_id (extended id request none) s h k = status_Replied os id _ s
  handle_packet-Replied order_id (extended id request (some p)) s h k =
      rw (sym h) (extended_Replied p s)
  handle_packet-Replied order_id (open_file id path pflags flags attrs) s h k =
      open_Replied os id path pflags flags attrs s
  handle_packet-Replied order_id (readdir id handle) s h k = readdir_Replied os id handle s
  handle_packet-Replied order_id (setstat id flags path attrs) s h k =
      setstat_Replied os id flags path attrs s
  handle_packet-Replied order_id (fsetstat id flags handle attrs) s h k =
      fsetstat_Replied os id flags handle attrs s

  -- Whatever the request, the system and the state, the server answers with one response that
  -- carries the request's id, opens one file or closes one handle at most, keeps its configuration
  -- and does not panic; for an extended packet whose two ids agree, and, with an allocator, a
  -- largest read of at most a page.
  pub serve_packet-Replied :
      (order_id : ℕ) (p : Packet) (s : Server W F)
      → SameId p
      → FitsPage s
      → Replied (packet_id p) s (serve_packet os order_id p s)
  unfolding serve_packet
  serve_packet-Replied order_id p s h k =
      elim (Bool-cases (not (seems_readonly p) && s.read_only)) [
        | inl e ↦ rw (serve_packet, e) (status_Replied os (packet_id p) _ s)
        | inr e ↦ rw (serve_packet, e) (handle_packet-Replied order_id p s h k)
      ]
