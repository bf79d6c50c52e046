-- ===== src/RequestServer/Ready/Served.antt =====
-- request-server.go: `packetWorker` answers every packet, and its open requests stay usable.
use sftp_go.Base.{ℕ, ◌≡◌, ◌≢◌, refl, sym, ◌∙◌, ap, inl, inr, Option, none, some, Option-cases}
use sftp_go.Wire.{Bytes}
use sftp_go.Allocator.{Allocator}
use sftp_go.Requests.{Request, Subject}
use sftp_go.Requests.Confined.{HasRaw}
use sftp_go.Response.{Response, response_id}
use sftp_go.Server.Errors.{GoError}
use sftp_go.Server.Handles.{get_handle, close_handle}
use sftp_go.Server.Handles.Fresh.{close_handle_lem}
use sftp_go.RequestServer.{Handlers, OpenRequest, unopened, RequestServer, Served, served, panics}
use sftp_go.RequestServer.Open.{Opening, now_open, refuses}
use sftp_go.RequestServer.Transfer.{Called, answers, breaks, status_reply}
use sftp_go.RequestServer.Worker.{
  next_request, put_back, close_request, after_open, serve_open, close_after, called_open,
}
use sftp_go.RequestServer.Answers.{Plain, Reports, Replies, FitsPages, RawCommand, status_Reports}
use sftp_go.RequestServer.Ready.{
  Usable, AllUsable, get_handle-put_back, put_back-AllUsable, close_handle-AllUsable,
  next_request_lem, get_handle-put_back_other,
}
use sftp_go.RequestServer.Ready.Kept.{ReadyTo, Keeps}

-- A handle that a response gives names an open request.
abbrev pub NamesOpen : {W O : Type 0} → Response → RequestServer W O → Type 0
NamesOpen {O} (Response.handle id k) rs =
    (r : OpenRequest O) × (get_handle k rs.open_requests ≡ some r)
NamesOpen reply rs = Unit {0}

-- What a server needs to serve: usable requests, and pages that hold the largest read.
abbrev pub IsReady : {W O : Type 0} → RequestServer W O → Type 0
IsReady rs = AllUsable rs.open_requests × FitsPages rs.pages rs.tx_packet_limit

-- One response to the request `id`, and a server that can go on; no panic.
abbrev pub Answered : {W O : Type 0} → ℕ → Served W O → Type 0
Answered id (served reply rs) = (response_id reply ≡ id) × NamesOpen reply rs × IsReady rs
Answered id panics = ⊥

-- The attributes are the bytes that the decoder stored.
abbrev pub Decoded : Subject → Type 0
Decoded p = HasRaw p × RawCommand p

module _ {W O I : Type 0} (h : Handlers W O I) where
  Plain-NamesOpen : (reply : Response) (rs : RequestServer W O) → Plain reply → NamesOpen reply rs
  Plain-NamesOpen (Response.handle id k) rs p = elim p [ ]
  Plain-NamesOpen (Response.version v exts) rs p = tt
  Plain-NamesOpen reply rs p = tt

  plain_Answered :
      (id : ℕ) (reply : Response) (rs : RequestServer W O)
      → Reports id reply
      → IsReady rs
      → Answered id (served reply rs)
  plain_Answered id reply rs (same, p) v = (same, Plain-NamesOpen reply rs p, v)

  pub status_Answered :
      (id : ℕ) (e : Option GoError) (rs : RequestServer W O)
      → IsReady rs
      → Answered id (served (status_reply h id e) rs)
  status_Answered id e rs v = plain_Answered id _ rs (status_Reports h id e) v

  still_fits :
      (a b : Option Allocator) (n : ℕ) → (a ≡ none → b ≡ none) → FitsPages a n → FitsPages b n
  still_fits a b n keep (inl e) = inl (keep e)
  still_fits a b n keep (inr le) = inr le

  -- The answer of `call` on a request that is in no table.
  pub close_after-Answered :
      (id : ℕ) (rs : RequestServer W O) (close_it : OpenRequest O → W → W) (c : Called W O)
      → IsReady rs
      → Replies id rs.pages c
      → Answered id (close_after h rs close_it c)
  unfolding close_after
  close_after-Answered id rs close_it (answers reply r alloc w) (u, f) (rep, keep) =
      plain_Answered id reply _ rep (u, still_fits rs.pages alloc rs.tx_packet_limit keep f)
  close_after-Answered id rs close_it breaks v c = elim c [ ]

  -- `call` on an open request, which goes back into the table.
  pub called_open-Answered :
      (id : ℕ) (handle : Bytes) (r : OpenRequest O) (rs : RequestServer W O) (c : Called W O)
      → IsReady rs
      → get_handle handle rs.open_requests ≡ some r
      → Replies id rs.pages c
      → Keeps r c
      → Answered id (called_open h handle rs c)
  unfolding called_open
  called_open-Answered id handle r rs (answers reply r' alloc w) (u, f) e (rep, keep) (u', same) =
      plain_Answered id reply _ rep (
        put_back-AllUsable handle r' r rs.open_requests (λ k x d. u k x) e u'
            (same ∙ (u handle r e).1),
        still_fits rs.pages alloc rs.tx_packet_limit keep f,
      )
  called_open-Answered id handle r rs breaks v e c k = elim c [ ]

  close_request-IsReady :
      (handle : Bytes) (rs : RequestServer W O)
      → ((k : Bytes) (r : OpenRequest O)
          → k ≢ handle
          → get_handle k rs.open_requests ≡ some r
          → Usable r × (r.request.handle ≡ k))
      → FitsPages rs.pages rs.tx_packet_limit
      → (r : OpenRequest O) → get_handle handle rs.open_requests ≡ some r
      → IsReady (close_request h handle rs).1
  unfolding close_request
  close_request-IsReady handle rs others f r e =
      let found : (close_handle handle rs.open_requests).0 ≡ some r =
        (close_handle_lem handle rs.open_requests).0 ∙ e in
      simp (close_request, found) (close_handle-AllUsable handle rs.open_requests others, f)

  -- CLOSE, on a known handle or not.
  pub close_Answered :
      (id : ℕ) (handle : Bytes) (rs : RequestServer W O)
      → IsReady rs
      → Answered id
          (served (status_reply h id (close_request h handle rs).0) (close_request h handle rs).1)
  unfolding close_request
  close_Answered id handle rs (u, f) =
      elim (Option-cases (close_handle handle rs.open_requests).0) [
        | inl e ↦ simp (close_request, e) (status_Answered id _ rs (u, f))
        | inr (r, e) ↦
            simp (close_request, e)
              (status_Answered id _ _
                (close_handle-AllUsable handle rs.open_requests (λ k x d. u k x), f))
      ]

  after_open-Answered :
      (id : ℕ) (handle : Bytes) (r : OpenRequest O) (rs : RequestServer W O) (o : Opening W O)
      → ((k : Bytes) (x : OpenRequest O)
          → k ≢ handle
          → get_handle k rs.open_requests ≡ some x
          → Usable x × (x.request.handle ≡ k))
      → FitsPages rs.pages rs.tx_packet_limit
      → get_handle handle rs.open_requests ≡ some r
      → r.request.handle ≡ handle
      → ReadyTo r o
      → Answered id (after_open h id handle rs o)
  unfolding after_open response_id
  after_open-Answered id handle r rs (now_open r' w) others f e name (u, same) =
      let back : get_handle handle (put_back handle r' rs.open_requests) ≡ some r' =
        get_handle-put_back handle r' r rs.open_requests e in
      (
        refl,
        (r', ap (λ k. get_handle k (put_back handle r' rs.open_requests)) (same ∙ name) ∙ back),
        (put_back-AllUsable handle r' r rs.open_requests others e u (same ∙ name), f),
      )
  after_open-Answered id handle r rs (refuses err r' w) others f e name u = status_Answered id _ _ (
      close_request-IsReady handle
        (record rs { open_requests = put_back handle r' rs.open_requests; outside = w })
        (λ k x d found.
          others k x d (sym (get_handle-put_back_other k handle r' rs.open_requests d) ∙ found))
        f r' (get_handle-put_back handle r' r rs.open_requests e))

  pub serve_open-Answered :
      (opener : OpenRequest O → W → Opening W O) (id : ℕ) (request : Request)
      (rs : RequestServer W O)
      → ((r : OpenRequest O) (w : W)
          → r ≡ (next_request (unopened request) rs.open_requests).0
          → ReadyTo r (opener r w))
      → IsReady rs
      → Answered id (serve_open h opener id (some request) rs)
  unfolding serve_open
  serve_open-Answered opener id request rs ready (u, f) =
      let r : OpenRequest O = (next_request (unopened request) rs.open_requests).0 in
      let (found, others) = next_request_lem (unopened request) rs.open_requests in
      after_open-Answered id r.request.handle r
        (record rs { open_requests = (next_request (unopened request) rs.open_requests).1 })
        (opener r rs.outside) (λ k x d e. u k x (sym (others k d) ∙ e)) f found refl
        (ready r rs.outside refl)
