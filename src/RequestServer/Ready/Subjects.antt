-- ===== src/RequestServer/Ready/Subjects.antt =====
-- request-server.go: the cases of `packetWorker`, by the kind of packet.
use sftp_go.Base.{ℕ, ◌≡◌, refl, inl, inr, none, some, Option-cases}
use sftp_go.Wire.{Bytes}
use sftp_go.Packet.{
  AttrsField, raw, specific_id, packet_id, statvfs, posix_rename, hardlink, init, open_file, close,
  fstat, setstat, fsetstat, opendir, realpath, rename, symlink, get_path,
}
use sftp_go.Requests.{
  Request, Subject, plain, specific, Method, subject_path, request_from_packet, fill_request,
  with_attrs, attrs_bytes,
}
use sftp_go.Requests.Confined.{HasRaw}
use sftp_go.Response.{response_id}
use sftp_go.Server.{Result, good, bad}
use sftp_go.Server.Handles.{HandleTable, get_handle}
use sftp_go.RequestServer.{
  Handlers, OpenRequest, unopened, RequestServer, real_path, legacy_real_path,
}
use sftp_go.RequestServer.Open.{Opening, open_request, open_directory}
use sftp_go.RequestServer.Transfer.{subject_id}
use sftp_go.RequestServer.Worker.{
  next_request, with_handle, subject_handle, serve_open, call_bare, call_named, call_handle,
  call_path, real_path_reply, serve_realpath, serve_other, serve_subject,
}
use sftp_go.RequestServer.Answers.{RawCommand, KeepsInterfaces}
use sftp_go.RequestServer.Answers.Calls.{call-Replies}
use sftp_go.RequestServer.Ready.{Fields}
use sftp_go.RequestServer.Ready.Kept.{
  ReadyTo, open_request-ReadyTo, open_directory-ReadyTo, call-Keeps,
}
use sftp_go.RequestServer.Ready.Served.{
  IsReady, Answered, Decoded, status_Answered, close_after-Answered, called_open-Answered,
  close_Answered, serve_open-Answered,
}

with_attrs_known :
    (r : Request) (flags : ℕ) (attrs : AttrsField) (b : Bytes)
    → attrs ≡ raw b
    → (q : Request) × (with_attrs r flags attrs ≡ some q)
unfolding with_attrs attrs_bytes
with_attrs_known r flags attrs b e = rw (e, with_attrs, attrs_bytes) (_, refl)

fill_request_known :
    (base : Bytes) (p : Subject) (r : Request)
    → HasRaw p
    → (q : Request) × (fill_request base p r ≡ some q)
unfolding fill_request
fill_request_known base (plain (open_file id path pflags flags attrs)) r (b, e) =
    with_attrs_known r pflags attrs b e
fill_request_known base (plain (setstat id flags path attrs)) r (b, e) =
    with_attrs_known r flags attrs b e
fill_request_known base (plain (rename id old new)) r v = (_, refl)
fill_request_known base (plain (symlink id target link)) r v = (_, refl)
fill_request_known base (specific (hardlink id ext old new)) r v = (_, refl)
fill_request_known base p r v = (r, refl)

-- A packet with a path makes a request.
request_known :
    (base : Bytes) (p : Subject) (path : Bytes)
    → subject_path p ≡ some path
    → HasRaw p
    → (r : Request) × (request_from_packet base p ≡ some r)
unfolding request_from_packet
request_known base p path e raw_attrs =
    rw (request_from_packet, e) (fill_request_known base p _ raw_attrs)

-- A request that was just made holds nothing.
next_Fields :
    {O : Type 0} (request : Request) (t : HandleTable (OpenRequest O)) (r : OpenRequest O)
    → r ≡ (next_request (unopened request) t).0
    → Fields r none none none none
unfolding next_request unopened with_handle
next_Fields request t r e = rw e (refl, refl, refl, refl)

module _ {W O I : Type 0} (h : Handlers W O I) (keeps : KeepsInterfaces h) where
  bare_Answered :
      (order_id : ℕ) (p : Subject) (request : Request) (rs : RequestServer W O)
      → RawCommand p
      → IsReady rs
      → Answered (subject_id p) (call_bare h order_id p request rs)
  unfolding call_bare
  bare_Answered order_id p request rs c v = close_after-Answered h (subject_id p) rs _ _ v (
      call-Replies h keeps (unopened request) p rs.pages order_id rs.tx_packet_limit rs.outside v.1
        c)

  named_Answered :
      (order_id : ℕ) (p : Subject) (m : Method) (handle : Bytes) (rs : RequestServer W O)
      → RawCommand p
      → IsReady rs
      → Answered (subject_id p) (call_named h order_id p m handle rs)
  unfolding call_named
  named_Answered order_id p m handle rs c v =
      elim (Option-cases (get_handle handle rs.open_requests)) [
        | inl e ↦ simp (call_named, e) (status_Answered h _ _ rs v)
        | inr (r, e) ↦ simp (call_named, e) (bare_Answered order_id p _ rs c v)
      ]

  handle_Answered :
      (order_id : ℕ) (p : Subject) (handle : Bytes) (rs : RequestServer W O)
      → RawCommand p
      → IsReady rs
      → Answered (subject_id p) (call_handle h order_id p handle rs)
  unfolding call_handle
  handle_Answered order_id p handle rs c v =
      elim (Option-cases (get_handle handle rs.open_requests)) [
        | inl e ↦ simp (call_handle, e) (status_Answered h _ _ rs v)
        | inr (r, e) ↦
            simp (call_handle, e)
              (called_open-Answered h (subject_id p) handle r rs _ v e
                (call-Replies h keeps r p rs.pages order_id rs.tx_packet_limit rs.outside v.1 c)
                (call-Keeps h r p rs.pages order_id rs.tx_packet_limit rs.outside
                  (v.0 handle r e).0))
      ]

  path_Answered :
      (order_id : ℕ) (p : Subject) (path : Bytes) (rs : RequestServer W O)
      → subject_path p ≡ some path
      → Decoded p
      → IsReady rs
      → Answered
          (subject_id p)
          (call_path h order_id p (request_from_packet rs.start_directory p) rs)
  unfolding call_path
  path_Answered order_id p path rs e (raw_attrs, c) v =
      let (r, known) = request_known rs.start_directory p path e raw_attrs in
      simp (call_path, known)
        (close_after-Answered h (subject_id p) rs _ _ v (
          call-Replies h keeps (unopened r) p rs.pages order_id rs.tx_packet_limit rs.outside v.1
            c))

  other_Answered :
      (order_id : ℕ) (p : Subject) (rs : RequestServer W O)
      → Decoded p
      → IsReady rs
      → Answered (subject_id p) (serve_other h order_id p rs)
  unfolding serve_other
  other_Answered order_id p rs d v = elim (Option-cases (subject_handle p)) [
    | inr (handle, e) ↦ simp (serve_other, e) (handle_Answered order_id p handle rs d.1 v)
    | inl e ↦ elim (Option-cases (subject_path p)) [
      | inr (path, f) ↦ simp (serve_other, e, f) (path_Answered order_id p path rs f d v)
      | inl f ↦ simp (serve_other, e, f) (status_Answered h _ _ rs v)
    ]
  ]

  real_path_Answered :
      (id : ℕ) (rs : RequestServer W O) (x : Result Bytes × W)
      → IsReady rs
      → Answered id (real_path_reply h id rs x)
  unfolding real_path_reply response_id
  real_path_Answered id rs (good path, w) v = (refl, tt, v)
  real_path_Answered id rs (bad e, w) v = status_Answered h id _ (record rs { outside = w }) v

  realpath_Answered :
      (id : ℕ) (path : Bytes) (rs : RequestServer W O)
      → IsReady rs
      → Answered id (serve_realpath h id path rs)
  unfolding serve_realpath response_id
  realpath_Answered id path rs v = elim (Option-cases h.pather) [
    | inl e ↦ simp (serve_realpath, e) (refl, tt, v)
    | inr (real_path f, e) ↦ simp (serve_realpath, e) (real_path_Answered id rs _ v)
    | inr (legacy_real_path f, e) ↦ simp (serve_realpath, e) (refl, tt, v)
  ]

  -- OPENDIR and OPEN.
  opened_Answered :
      (id : ℕ) (path : Bytes) (p : Subject) (rs : RequestServer W O)
      (opener : OpenRequest O → W → Opening W O)
      → subject_path p ≡ some path
      → HasRaw p
      → ((request : Request) (r : OpenRequest O) (w : W)
          → r ≡ (next_request (unopened request) rs.open_requests).0
          → ReadyTo r (opener r w))
      → IsReady rs
      → Answered id (serve_open h opener id (request_from_packet rs.start_directory p) rs)
  opened_Answered id path p rs opener e raw_attrs ready v =
      let (request, known) = request_known rs.start_directory p path e raw_attrs in
      simp known (serve_open-Answered h opener id request rs (ready request) v)

  pub serve_subject-Answered :
      (order_id : ℕ) (p : Subject) (rs : RequestServer W O)
      → Decoded p
      → IsReady rs
      → Answered (subject_id p) (serve_subject h order_id p rs)
  unfolding serve_subject subject_id packet_id specific_id response_id subject_path get_path
  serve_subject-Answered order_id (plain (init version exts)) rs d v = (refl, tt, v)
  serve_subject-Answered order_id (plain (close id handle)) rs d v = close_Answered h id handle rs v
  serve_subject-Answered order_id (plain (realpath id path)) rs d v = realpath_Answered id path rs v
  serve_subject-Answered order_id (plain (opendir id path)) rs d v =
      opened_Answered id path (plain (opendir id path)) rs (open_directory h) refl d.0
        (λ request r w e. open_directory-ReadyTo h keeps r w (next_Fields request _ r e)) v
  serve_subject-Answered order_id (plain (open_file id path pflags flags attrs)) rs d v =
      opened_Answered id path (plain (open_file id path pflags flags attrs)) rs (open_request h)
        refl d.0 (λ request r w e. open_request-ReadyTo h keeps r w (next_Fields request _ r e)) v
  serve_subject-Answered order_id (plain (fstat id handle)) rs d v =
      named_Answered order_id (plain (fstat id handle)) _ handle rs d.1 v
  serve_subject-Answered order_id (plain (fsetstat id flags handle attrs)) rs d v =
      named_Answered order_id (plain (fsetstat id flags handle attrs)) _ handle rs d.1 v
  serve_subject-Answered order_id (specific (posix_rename id ext old new)) rs d v =
      bare_Answered order_id (specific (posix_rename id ext old new)) _ rs tt v
  serve_subject-Answered order_id (specific (statvfs id ext path)) rs d v =
      bare_Answered order_id (specific (statvfs id ext path)) _ rs tt v
  serve_subject-Answered order_id (plain p) rs d v = other_Answered order_id (plain p) rs d v
  serve_subject-Answered order_id (specific s) rs d v = other_Answered order_id (specific s) rs d v
