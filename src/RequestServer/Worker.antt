-- ===== src/RequestServer/Worker.antt =====
-- request-server.go: the table of open requests, `packetWorker`, and the end of `Serve`. A request is
-- served in one step: what another worker does with a handle between two calls is not seen.
use sftp_go.Base.{ℕ, ◌+◌, ◌%◌, ◌^◌, Option, none, some, List, [], ◌∷◌, same_bytes, if◌then◌else◌}
use sftp_go.Wire.{Bytes}
use sftp_go.Paths.{clean_path_with_base}
use sftp_go.Packet.{
  Packet, AttrsField, Specific, statvfs, posix_rename, init, open_file, close, fstat, fsetstat,
  opendir, realpath,
}
use sftp_go.Packet
use sftp_go.Requests.{
  Request, Subject, plain, specific, Method, stat_path, set_stat, posix_rename_path, stat_vfs,
  subject_of, subject_path, request_from_packet,
}
use sftp_go.Response.{Response}
use sftp_go.Server.{Result, good, bad}
use sftp_go.Server.Errors.{GoError, errno, ebadf, eof, fx}
use sftp_go.Server.Errors
use sftp_go.Server.Errors.Codes
use sftp_go.Server.Handles.{HandleTable, delete, get_handle, close_handle}
use sftp_go.Server.Handles.Decimal.{itoa}
use sftp_go.Server.Respond.{one_name}
use sftp_go.Server.Dispatch.{sftp_protocol_version, sftp_extensions}
use sftp_go.RequestServer.{
  Handlers, real_path, legacy_real_path, OpenRequest, unopened, RequestServer, Served, served,
  panics,
}
use sftp_go.RequestServer.Holding.{close_open_request, transfer_error}
use sftp_go.RequestServer.Open.{Opening, now_open, refuses, open_request, open_directory}
use sftp_go.RequestServer.Transfer.{Called, answers, breaks, subject_id, status_reply}
use sftp_go.RequestServer.Call.{call}

module _ {O : Type 0} where
  unfoldable pub with_handle : Bytes → OpenRequest O → OpenRequest O
  with_handle handle r = record r { request = record r.request { handle = handle } }

  -- `nextRequest`: the request with its handle, and the table with it.
  unfoldable pub next_request :
      OpenRequest O → HandleTable (OpenRequest O) → OpenRequest O × HandleTable (OpenRequest O)
  next_request r t =
      let count : ℕ = (t.handle_count + 1) % 2 ^ 64 in
      let handle : Bytes = itoa count in
      let r' : OpenRequest O = with_handle handle r in
      (r', record { open_files = (handle, r') ∷ delete handle t.open_files; handle_count = count })

  -- The table holds pointers: what a handler changes in a request stands there at once.
  unfoldable pub replace :
      Bytes → OpenRequest O → List (Bytes × OpenRequest O) → List (Bytes × OpenRequest O)
  replace handle r [] = []
  replace handle r ((k, r0) ∷ rest) =
      let others = replace handle r rest in
      if same_bytes k handle then (k, r) ∷ rest else (k, r0) ∷ others

  unfoldable pub put_back :
      Bytes → OpenRequest O → HandleTable (OpenRequest O) → HandleTable (OpenRequest O)
  put_back handle r t = record t { open_files = replace handle r t.open_files }

-- `getHandle` of the packets of `hasHandle`.
unfoldable pub subject_handle : Subject → Option Bytes
subject_handle (plain p) = Packet.get_handle p
subject_handle (specific s) = none

-- `&Request{Method: …, Filepath: …, Target: …}`.
abbrev pub bare_request : Method → Bytes → Bytes → Request
bare_request m path target = record {
  method = m;
  filepath = path;
  flags = 0;
  attrs = [];
  target = target;
  handle = [];
}

-- `io.ErrUnexpectedEOF`.
abbrev pub unexpected_eof : GoError
unexpected_eof = Errors.other 4

unfoldable pub eof_unexpected : Option GoError → Option GoError
eof_unexpected (some eof) = some unexpected_eof
eof_unexpected e = e

module _ {W O I : Type 0} (h : Handlers W O I) where
  -- `closeRequest`.
  unfoldable pub close_request : Bytes → RequestServer W O → Option GoError × RequestServer W O
  close_request handle rs =
      let (found, t) = close_handle handle rs.open_requests in
      elim found [
        | none ↦ (some (errno ebadf), rs)
        | some r ↦
            let (e, w) = close_open_request h r rs.outside in
            (e, record rs { open_requests = t; outside = w })
      ]

  -- What follows `open` and `opendir`: a request that was refused is closed again.
  unfoldable pub after_open : ℕ → Bytes → RequestServer W O → Opening W O → Served W O
  after_open id handle rs (now_open r w) =
      served (Response.handle id r.request.handle)
        (record rs { open_requests = put_back handle r rs.open_requests; outside = w })
  after_open id handle rs (refuses e r w) =
      served (status_reply h id (some e))
        (close_request handle
          (record rs { open_requests = put_back handle r rs.open_requests; outside = w })).1

  -- OPEN and OPENDIR, with `open` or `opendir`.
  unfoldable pub serve_open :
      (OpenRequest O → W → Opening W O) → ℕ → Option Request → RequestServer W O → Served W O
  serve_open opener id none rs = panics
  serve_open opener id (some request) rs =
      let (r, t) = next_request (unopened request) rs.open_requests in
      after_open id r.request.handle (record rs { open_requests = t }) (opener r rs.outside)

  -- What follows `call` on a request that is in no table; `close` is what is called afterwards.
  unfoldable pub close_after : RequestServer W O → (OpenRequest O → W → W) → Called W O → Served W O
  close_after rs close_it breaks = panics
  close_after rs close_it (answers reply r alloc w) =
      served reply (record rs { pages = alloc; outside = close_it r w })

  unfoldable pub call_bare : ℕ → Subject → Request → RequestServer W O → Served W O
  call_bare order_id p request rs =
      close_after rs (λ r w. w)
        (call h (unopened request) p rs.pages order_id rs.tx_packet_limit rs.outside)

  -- FSTAT and FSETSTAT: a new request for the path of the open one.
  unfoldable pub call_named : ℕ → Subject → Method → Bytes → RequestServer W O → Served W O
  call_named order_id p m handle rs = elim (get_handle handle rs.open_requests) [
    | none ↦ served (status_reply h (subject_id p) (some (errno ebadf))) rs
    | some r ↦
        call_bare order_id p
          (bare_request m (clean_path_with_base rs.start_directory r.request.filepath) []) rs
  ]

  -- What follows `call` on an open request.
  unfoldable pub called_open : Bytes → RequestServer W O → Called W O → Served W O
  called_open handle rs breaks = panics
  called_open handle rs (answers reply r alloc w) =
      served reply (record rs {
        open_requests = put_back handle r rs.open_requests;
        pages = alloc;
        outside = w;
      })

  -- The packets of `hasHandle`.
  unfoldable pub call_handle : ℕ → Subject → Bytes → RequestServer W O → Served W O
  call_handle order_id p handle rs = elim (get_handle handle rs.open_requests) [
    | none ↦ served (status_reply h (subject_id p) (some (errno ebadf))) rs
    | some r ↦ called_open handle rs (call h r p rs.pages order_id rs.tx_packet_limit rs.outside)
  ]

  -- The packets of `hasPath`: the request is closed when it has been answered.
  unfoldable pub call_path : ℕ → Subject → Option Request → RequestServer W O → Served W O
  call_path order_id p none rs = panics
  call_path order_id p (some request) rs =
      close_after rs (λ r w. (close_open_request h r w).1)
        (call h (unopened request) p rs.pages order_id rs.tx_packet_limit rs.outside)

  unfoldable pub real_path_reply : ℕ → RequestServer W O → Result Bytes × W → Served W O
  real_path_reply id rs (good path, w) = served (one_name id path) (record rs { outside = w })
  real_path_reply id rs (bad e, w) = served (status_reply h id (some e)) (record rs { outside = w })

  unfoldable pub serve_realpath : ℕ → Bytes → RequestServer W O → Served W O
  serve_realpath id path rs = elim h.pather [
    | none ↦ served (one_name id (clean_path_with_base rs.start_directory path)) rs
    | some (real_path f) ↦ real_path_reply id rs (f path rs.outside)
    | some (legacy_real_path f) ↦
        let (path', w) = f path rs.outside in served (one_name id path') (record rs { outside = w })
  ]

  -- The last cases of the worker's switch.
  unfoldable pub serve_other : ℕ → Subject → RequestServer W O → Served W O
  serve_other order_id p rs = elim (subject_handle p) [
    | some handle ↦ call_handle order_id p handle rs
    | none ↦ elim (subject_path p) [
      | some path ↦ call_path order_id p (request_from_packet rs.start_directory p) rs
      | none ↦ served (status_reply h (subject_id p) (some (fx Codes.op_unsupported))) rs
    ]
  ]

  unfoldable pub serve_subject : ℕ → Subject → RequestServer W O → Served W O
  serve_subject order_id (plain (init version exts)) rs =
      served (Response.version sftp_protocol_version sftp_extensions) rs
  serve_subject order_id (plain (close id handle)) rs =
      let (e, rs') = close_request handle rs in served (status_reply h id e) rs'
  serve_subject order_id (plain (realpath id path)) rs = serve_realpath id path rs
  serve_subject order_id (plain (opendir id path)) rs =
      serve_open (open_directory h) id
        (request_from_packet rs.start_directory (plain (opendir id path))) rs
  serve_subject order_id (plain (open_file id path pflags flags attrs)) rs =
      serve_open (open_request h) id
        (request_from_packet rs.start_directory (plain (open_file id path pflags flags attrs))) rs
  serve_subject order_id (plain (fstat id handle)) rs =
      call_named order_id (plain (fstat id handle)) stat_path handle rs
  serve_subject order_id (plain (fsetstat id flags handle attrs)) rs =
      call_named order_id (plain (fsetstat id flags handle attrs)) set_stat handle rs
  serve_subject order_id (specific (posix_rename id ext old new)) rs =
      call_bare order_id (specific (posix_rename id ext old new))
        (bare_request posix_rename_path (clean_path_with_base rs.start_directory old)
          (clean_path_with_base rs.start_directory new))
        rs
  serve_subject order_id (specific (statvfs id ext path)) rs =
      call_bare order_id (specific (statvfs id ext path))
        (bare_request stat_vfs (clean_path_with_base rs.start_directory path) []) rs
  serve_subject order_id p rs = serve_other order_id p rs

  -- One round of `packetWorker`.
  unfoldable pub serve_request : ℕ → Packet → RequestServer W O → Served W O
  serve_request order_id p rs = serve_subject order_id (subject_of p) rs

  -- The end of `Serve`: the open requests learn of the error and are closed.
  unfoldable pub finish_requests :
      Option GoError → List (Bytes × OpenRequest O) → W → Option GoError × W
  finish_requests e [] w = (e, w)
  finish_requests e ((handle, r) ∷ rest) w =
      let e' = eof_unexpected e in
      finish_requests e' rest (close_open_request h r (transfer_error h e' r w)).1

  unfoldable pub finish : Option GoError → RequestServer W O → Option GoError × RequestServer W O
  finish e rs =
      let (e', w) = finish_requests e rs.open_requests.open_files rs.outside in
      (e', record rs { open_requests = record rs.open_requests { open_files = [] }; outside = w })

  -- `packetWorker` on the packets that it receives, with their order ids: the responses in the order
  -- in which they are made, or the panic.
  unfoldable pub serve_requests :
      List (ℕ × Packet) → RequestServer W O → Option (List Response × RequestServer W O)
  serve_requests [] rs = some ([], rs)
  serve_requests ((order_id, p) ∷ rest) rs = elim (serve_request order_id p rs) [
    | panics ↦ none
    | served reply rs' ↦ elim (serve_requests rest rs') [
      | none ↦ none
      | some (replies, rs'') ↦ some (reply ∷ replies, rs'')
    ]
  ]
