-- ===== src/RequestServer/Answers/Calls.antt =====
-- request.go: `Request.call` answers each packet once, with the packet's id.
use sftp_go.Base.{
  ℕ, ◌≡◌, refl, inl, inr, Option, none, some, Option-cases, List, [], ◌∷◌, length, ltb, false,
  arith,
}
use sftp_go.Wire.{Bytes}
use sftp_go.Allocator.{Allocator}
use sftp_go.Packet.{fsetstat}
use sftp_go.Requests.{
  Request, Subject, plain, specific, Method, unset, get, put, open_both, list, posix_rename_path,
  stat_vfs, stat_path, lstat_path, read_link, with_attrs, attrs_bytes,
}
use sftp_go.Requests.Listing.{max_filelist, Batch, names, refused}
use sftp_go.Response.{Response, response_id}
use sftp_go.Response
use sftp_go.Server.{Result, good, bad}
use sftp_go.Server.Errors.{GoError, eof}
use sftp_go.RequestServer.{Handlers, OpenRequest}
use sftp_go.RequestServer.Transfer.{subject_id}
use sftp_go.RequestServer.Call.{
  command_request, commanded, vfs_reply, run_command, filecmd, batch_reply, list_open, entry_reply,
  stat_reply, stat_listed, stat_lister, filestat, link_reply, call_readlink, call,
}
use sftp_go.RequestServer.Answers.{
  Reports, Replies, FitsPages, Gives, KeepsInterfaces, RawCommand, status_Reports, status_Replies,
  fileget-Replies, fileput-Replies, fileputget-Replies,
}

module _ {W O I : Type 0} (h : Handlers W O I) (keeps : KeepsInterfaces h) where
  vfs_Replies :
      (id : ℕ) (r : OpenRequest O) (alloc : Option Allocator)
      (x : Result (Option Response.StatVfs) × W)
      → Gives x
      → Replies id alloc (vfs_reply h id r alloc x)
  unfolding vfs_reply response_id
  vfs_Replies id r alloc (good none, w) g = elim g [ ]
  vfs_Replies id r alloc (good (some v), w) g = ((refl, tt), λ n. n)
  vfs_Replies id r alloc (bad e, w) g = status_Replies h id _ r alloc w

  -- A handler's answer is a pair of an error and a world.
  commanded-Replies :
      (id : ℕ) (r : OpenRequest O) (alloc : Option Allocator) (x : Option GoError × W)
      → Replies id alloc (commanded h id r alloc x)
  unfolding commanded
  commanded-Replies id r alloc (e, w) = status_Replies h id e r alloc w

  run_posix_rename :
      (id : ℕ) (r : OpenRequest O) (alloc : Option Allocator) (w : W)
      → r.request.method ≡ posix_rename_path
      → Replies id alloc (run_command h id r alloc w)
  unfolding run_command
  run_posix_rename id r alloc w m = elim (Option-cases h.posixrename) [
    | inl e ↦ simp (run_command, m, e) (commanded-Replies id _ alloc _)
    | inr (f, e) ↦ simp (run_command, m, e) (commanded-Replies id r alloc _)
  ]

  run_stat_vfs :
      (id : ℕ) (r : OpenRequest O) (alloc : Option Allocator) (w : W)
      → r.request.method ≡ stat_vfs
      → Replies id alloc (run_command h id r alloc w)
  unfolding run_command
  run_stat_vfs id r alloc w m = elim (Option-cases h.vfs) [
    | inl e ↦ simp (run_command, m, e) (status_Replies h id _ r alloc w)
    | inr (f, e) ↦
        simp (run_command, m, e) (vfs_Replies id r alloc _ (keeps.gives_vfs f e r.request w))
  ]

  run_command-Replies :
      (id : ℕ) (r : OpenRequest O) (alloc : Option Allocator) (w : W) (m : Method)
      → r.request.method ≡ m
      → Replies id alloc (run_command h id r alloc w)
  unfolding run_command
  run_command-Replies id r alloc w posix_rename_path m = run_posix_rename id r alloc w m
  run_command-Replies id r alloc w stat_vfs m = run_stat_vfs id r alloc w m
  run_command-Replies id r alloc w other m =
      simp (run_command, m) (commanded-Replies id r alloc (h.filecmder r.request w))

  command_known :
      (r : Request) (p : Subject) → RawCommand p → (q : Request) × (command_request h r p ≡ some q)
  unfolding command_request with_attrs attrs_bytes
  command_known r (plain (fsetstat id flags handle attrs)) (b, e) =
      rw (e, command_request, with_attrs, attrs_bytes) (_, refl)
  command_known r (plain p) c = (r, refl)
  command_known r (specific s) c = (r, refl)

  filecmd-Replies :
      (r : OpenRequest O) (p : Subject) (alloc : Option Allocator) (w : W)
      → RawCommand p
      → Replies (subject_id p) alloc (filecmd h r p alloc w)
  unfolding filecmd
  filecmd-Replies r p alloc w c =
      let (q, e) = command_known r.request p c in
      simp (filecmd, e)
        (run_command-Replies (subject_id p) (record r { request = q }) alloc w q.method refl)

  batch_Reports : (id : ℕ) (b : Batch I) → Reports id (batch_reply h id b)
  unfolding batch_reply response_id
  batch_Reports id (names found) = (refl, tt)
  batch_Reports id (refused e) = status_Reports h id (some e)

  listed_fits :
      (o : O) (offset : ℕ) (w : W)
      → ltb max_filelist (length (h.object_list_at o max_filelist offset w).0.0) ≡ false
  listed_fits o offset w = ground (arith, keeps.lists_within o max_filelist offset w)

  listed-Replies :
      (r : OpenRequest O) (p : Subject) (alloc : Option Allocator) (w : W) (m : Method)
      → r.request.method ≡ m
      → Replies (subject_id p) alloc (list_open h r p alloc w)
  unfolding list_open
  listed-Replies r p alloc w list m = elim (Option-cases r.lister_at) [
    | inl e ↦ simp (list_open, e) (status_Replies h _ _ r alloc w)
    | inr (o, e) ↦ simp (list_open, e, m, listed_fits o r.lsoffset w) (batch_Reports _ _, λ n. n)
  ]
  listed-Replies r p alloc w other m = elim (Option-cases r.lister_at) [
    | inl e ↦ simp (list_open, e) (status_Replies h _ _ r alloc w)
    | inr (o, e) ↦ simp (list_open, e, m, listed_fits o r.lsoffset w) (status_Reports h _ _, λ n. n)
  ]

  entry_Reports :
      (id : ℕ) (path : Bytes) (reply : I → Response) (x : List I × Option GoError)
      → ((i : I) → Reports id (reply i))
      → Reports id (entry_reply h id path reply x)
  unfolding entry_reply
  entry_Reports id path reply ([], none) k = status_Reports h id _
  entry_Reports id path reply ([], some eof) k = status_Reports h id _
  entry_Reports id path reply (i ∷ rest, none) k = k i
  entry_Reports id path reply (i ∷ rest, some eof) k = k i
  entry_Reports id path reply ([], some e) k = status_Reports h id _
  entry_Reports id path reply (i ∷ rest, some e) k = status_Reports h id _

  stat_Reports :
      (id : ℕ) (r : Request) (x : List I × Option GoError) (m : Method)
      → r.method ≡ m
      → Reports id (stat_reply h id r x)
  unfolding stat_reply response_id
  stat_Reports id r x stat_path m =
      simp (stat_reply, m) (entry_Reports id r.filepath _ x λ i. (refl, tt))
  stat_Reports id r x lstat_path m =
      simp (stat_reply, m) (entry_Reports id r.filepath _ x λ i. (refl, tt))
  stat_Reports id r x read_link m =
      simp (stat_reply, m) (entry_Reports id r.filepath _ x λ i. (refl, tt))
  stat_Reports id r x other m = simp (stat_reply, m) (status_Reports h id _)

  stat_listed-Replies :
      (id : ℕ) (alloc : Option Allocator) (x : (Result (Option O) × W) × OpenRequest O)
      → Gives x.0
      → Replies id alloc (stat_listed h id alloc x)
  unfolding stat_listed
  stat_listed-Replies id alloc ((bad e, w), r) g = status_Replies h id _ r alloc w
  stat_listed-Replies id alloc ((good none, w), r) g = elim g [ ]
  stat_listed-Replies id alloc ((good (some o), w), r) g =
      let single : ltb 1 (length (h.object_list_at o 1 0 w).0.0) ≡ false =
        ground (arith, keeps.lists_within o 1 0 w) in
      rw (stat_listed, single) (stat_Reports id r.request _ r.request.method refl, λ n. n)

  stat_lister-Gives :
      (r : OpenRequest O) (w : W) (m : Method) → r.request.method ≡ m → Gives (stat_lister h r w).0
  unfolding stat_lister
  stat_lister-Gives r w lstat_path m = elim (Option-cases h.lstater) [
    | inl e ↦ simp (stat_lister, m, e) (keeps.gives_lister _ w)
    | inr (f, e) ↦ simp (stat_lister, m, e) (keeps.gives_lstat f e r.request w)
  ]
  stat_lister-Gives r w other m = simp (stat_lister, m) (keeps.gives_lister r.request w)

  filestat-Replies :
      (r : OpenRequest O) (p : Subject) (alloc : Option Allocator) (w : W)
      → Replies (subject_id p) alloc (filestat h r p alloc w)
  unfolding filestat
  filestat-Replies r p alloc w =
      stat_listed-Replies (subject_id p) alloc (stat_lister h r w)
        (stat_lister-Gives r w r.request.method refl)

  link_Replies :
      (id : ℕ) (r : OpenRequest O) (alloc : Option Allocator) (x : Result Bytes × W)
      → Replies id alloc (link_reply h id r alloc x)
  unfolding link_reply response_id
  link_Replies id r alloc (good path, w) = ((refl, tt), λ n. n)
  link_Replies id r alloc (bad e, w) = status_Replies h id _ r alloc w

  readlink_Replies :
      (r : OpenRequest O) (p : Subject) (alloc : Option Allocator) (w : W)
      → Replies (subject_id p) alloc (call_readlink h r p alloc w)
  unfolding call_readlink
  readlink_Replies r p alloc w = elim (Option-cases h.readlinker) [
    | inl e ↦ simp (call_readlink, e) (filestat-Replies r p alloc w)
    | inr (f, e) ↦ simp (call_readlink, e) (link_Replies (subject_id p) r alloc _)
  ]

  -- Whatever the method, the packet and the handlers.
  call_by_method :
      (r : OpenRequest O) (p : Subject) (alloc : Option Allocator) (order_id max_tx : ℕ) (w : W)
      (m : Method)
      → r.request.method ≡ m
      → FitsPages alloc max_tx
      → RawCommand p
      → Replies (subject_id p) alloc (call h r p alloc order_id max_tx w)
  unfolding call
  call_by_method r p alloc order_id max_tx w get m f c =
      simp (call, m) (fileget-Replies h keeps r p alloc order_id max_tx w f)
  call_by_method r p alloc order_id max_tx w put m f c =
      simp (call, m) (fileput-Replies h keeps r p alloc order_id max_tx w f)
  call_by_method r p alloc order_id max_tx w open_both m f c =
      simp (call, m) (fileputget-Replies h keeps r p alloc order_id max_tx w f)
  call_by_method r p alloc order_id max_tx w list m f c =
      simp (call, m) (listed-Replies r p alloc w list m)
  call_by_method r p alloc order_id max_tx w stat_path m f c =
      simp (call, m) (filestat-Replies r p alloc w)
  call_by_method r p alloc order_id max_tx w lstat_path m f c =
      simp (call, m) (filestat-Replies r p alloc w)
  call_by_method r p alloc order_id max_tx w read_link m f c =
      simp (call, m) (readlink_Replies r p alloc w)
  call_by_method r p alloc order_id max_tx w unset m f c =
      simp (call, m) (status_Replies h _ _ r alloc w)
  call_by_method r p alloc order_id max_tx w other m f c =
      simp (call, m) (filecmd-Replies r p alloc w c)

  pub call-Replies :
      (r : OpenRequest O) (p : Subject) (alloc : Option Allocator) (order_id max_tx : ℕ) (w : W)
      → FitsPages alloc max_tx
      → RawCommand p
      → Replies (subject_id p) alloc (call h r p alloc order_id max_tx w)
  call-Replies r p alloc order_id max_tx w =
      call_by_method r p alloc order_id max_tx w r.request.method refl
