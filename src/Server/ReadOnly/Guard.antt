-- ===== src/Server/ReadOnly/Guard.antt =====
-- The worker's guard, with every kind of request behind it.
use sftp_go.Base.{
  ℕ, ◌≡◌, refl, sym, arith, true, false, Bool-cases, inl, inr, none, some, Option-cases,
}
use sftp_go.Wire.{Bytes}
use sftp_go.Packet.{
  Packet, Specific, posix_rename, hardlink, init, lstat, open_file, close, read, write, fstat,
  setstat, fsetstat, opendir, readdir, remove, mkdir, rmdir, realpath, stat, rename, readlink,
  symlink, extended, AttrsField, not_read_only, specific_readonly,
}
use sftp_go.Packet
use sftp_go.Packet.Fxf
use sftp_go.Server.{Result, good, bad, Os, Server}
use sftp_go.Server.Handles.{get_handle, close_handle}
use sftp_go.Server.Respond.{respond_readdir}
use sftp_go.Server.Dispatch.{
  get_data_slice, opendir_answer, handle_close, handle_read, respond_extended, handle_packet,
  serve_packet, seems_readonly, extended_readonly,
}
use sftp_go.Server.ReadOnly.{
  slips_through, OnlyLooks, Keeps, stat-Keeps, readlink-Keeps, realpath-Keeps, listed-Keeps,
  statvfs-Keeps, read-Keeps, open-Keeps,
}

module _ {W F I C : Type 0} (os : Os W F I) (content : W → C) (laws : OnlyLooks os content) where
  readdir-Keeps :
      (id : ℕ) (handle : Bytes) (s : Server W F)
      → Keeps content (content s.world) (respond_readdir os id handle s)
  unfolding respond_readdir
  readdir-Keeps id handle s = elim (Option-cases (get_handle handle s.handles)) [
    | inl e ↦ rw (respond_readdir, e) refl
    | inr (f, e) ↦
        rw (respond_readdir, e)
          (listed-Keeps os content laws _ id s _ (laws.read_dir_keeps f 128 s.world))
  ]

  opendir-Keeps :
      (c : C) (id : ℕ) (path : Bytes) (s : Server W F) (r : Result I × W)
      → content r.1 ≡ c
      → Keeps content c (opendir_answer os id path s r)
  unfolding opendir_answer
  opendir-Keeps c id path s (bad e, w) h = h
  opendir-Keeps c id path s (good info, w) h = elim (Bool-cases (os.is_dir info)) [
    | inl d ↦
        rw (opendir_answer, d, sym h)
          (open-Keeps os content laws id path Fxf.read 0 _ (record s { world = w }) refl refl refl)
    | inr d ↦ rw (opendir_answer, d) h
  ]

  close-Keeps :
      (id : ℕ) (handle : Bytes) (s : Server W F)
      → Keeps content (content s.world) (handle_close os id handle s)
  unfolding handle_close
  close-Keeps id handle s = elim (Option-cases (close_handle handle s.handles).0) [
    | inl e ↦ rw (handle_close, e) refl
    | inr (f, e) ↦ rw (handle_close, e) (laws.file_close_keeps f s.world)
  ]

  handle_read-Keeps :
      (order_id id len offset : ℕ) (handle : Bytes) (s : Server W F)
      → Keeps content (content s.world) (handle_read os order_id id len offset handle s)
  unfolding handle_read
  handle_read-Keeps order_id id len offset handle s =
      elim (Option-cases (get_handle handle s.handles)) [
        | inl e ↦ rw (handle_read, e) refl
        | inr (f, e) ↦ elim (Option-cases (get_data_slice len s.alloc order_id s.max_tx_packet)) [
          | inl none_left ↦ rw (handle_read, e, none_left) tt
          | inr ((n, alloc), slice) ↦
              rw (handle_read, e, slice)
                (read-Keeps os content laws _ id s alloc _ (laws.read_at_keeps f n offset s.world))
        ]
      ]

  fstat-Keeps :
      (order_id id : ℕ) (handle : Bytes) (s : Server W F)
      → Keeps content (content s.world) (handle_packet os order_id (fstat id handle) s)
  unfolding handle_packet
  fstat-Keeps order_id id handle s = elim (Option-cases (get_handle handle s.handles)) [
    | inl e ↦ rw (handle_packet, e) refl
    | inr (f, e) ↦
        rw (handle_packet, e) (stat-Keeps os content laws _ id s _ (laws.file_stat_keeps f s.world))
  ]

  handle_packet-Keeps :
      (order_id : ℕ) (p : Packet) (s : Server W F)
      → seems_readonly p ≡ true
      → slips_through p ≡ false
      → Keeps content (content s.world) (handle_packet os order_id p s)
  unfolding handle_packet seems_readonly slips_through not_read_only extended_readonly
      respond_extended specific_readonly
  handle_packet-Keeps order_id (init version exts) s h k = refl
  handle_packet-Keeps order_id (stat id path) s h k =
      stat-Keeps os content laws _ id s _ (laws.stat_keeps _ s.world)
  handle_packet-Keeps order_id (lstat id path) s h k =
      stat-Keeps os content laws _ id s _ (laws.lstat_keeps _ s.world)
  handle_packet-Keeps order_id (fstat id handle) s h k = fstat-Keeps order_id id handle s
  handle_packet-Keeps order_id (mkdir id flags path) s h k = absurd (cc h)
  handle_packet-Keeps order_id (rmdir id path) s h k = absurd (cc h)
  handle_packet-Keeps order_id (remove id filename) s h k = absurd (cc h)
  handle_packet-Keeps order_id (rename id old new) s h k = absurd (cc h)
  handle_packet-Keeps order_id (symlink id target link) s h k = absurd (cc h)
  handle_packet-Keeps order_id (close id handle) s h k = close-Keeps id handle s
  handle_packet-Keeps order_id (readlink id path) s h k =
      readlink-Keeps os content laws _ id s _ (laws.readlink_keeps _ s.world)
  handle_packet-Keeps order_id (realpath id path) s h k =
      realpath-Keeps os content laws _ id s _ (laws.abs_path_keeps _ s.world)
  handle_packet-Keeps order_id (opendir id path) s h k =
      opendir-Keeps _ id path s _ (laws.stat_keeps _ s.world)
  handle_packet-Keeps order_id (read id len offset handle) s h k =
      handle_read-Keeps order_id id len offset handle s
  handle_packet-Keeps order_id (write id len offset handle content) s h k = absurd (cc h)
  handle_packet-Keeps order_id (extended id request none) s h k = refl
  handle_packet-Keeps order_id (extended id request (some (Packet.statvfs id' ext path))) s h k =
      statvfs-Keeps os content laws _ id' s _ (laws.statvfs_keeps path s.world)
  handle_packet-Keeps order_id (extended id request (some (posix_rename id' ext old new))) s h k =
      absurd (cc h)
  handle_packet-Keeps order_id (extended id request (some (hardlink id' ext old new))) s h k =
      absurd (cc k)
  handle_packet-Keeps order_id (open_file id path pflags flags attrs) s h k =
      open-Keeps os content laws id path pflags flags attrs s (ground arith) (ground arith)
        (ground arith)
  handle_packet-Keeps order_id (readdir id handle) s h k = readdir-Keeps id handle s
  handle_packet-Keeps order_id (setstat id flags path attrs) s h k = absurd (cc h)
  handle_packet-Keeps order_id (fsetstat id flags handle attrs) s h k = absurd (cc h)

  -- A request to a read-only server leaves the files as they were, unless it is a hard link or an
  -- open that creates or truncates; for a system whose looking calls leave them.
  pub serve_packet_read_only :
      (order_id : ℕ) (p : Packet) (s : Server W F)
      → s.read_only ≡ true
      → slips_through p ≡ false
      → Keeps content (content s.world) (serve_packet os order_id p s)
  unfolding serve_packet
  serve_packet_read_only order_id p s r k = elim (Bool-cases (seems_readonly p)) [
    | inl e ↦ rw (serve_packet, e) (handle_packet-Keeps order_id p s e k)
    | inr e ↦ rw (serve_packet, e, r) refl
  ]
