-- ===== src/RequestServer/Ready/Run.antt =====
-- request-server.go: `packetWorker` over the packets that it receives.
use sftp_go.Base.{ℕ, ◌≡◌, refl, ◌∙◌, arith, Option, none, some, List, [], ◌∷◌, map, All}
use sftp_go.Packet.{Packet, specific_id, packet_id, extended}
use sftp_go.Packet.Decode.Ids.{SameId}
use sftp_go.Requests.{subject_of}
use sftp_go.Response.{Response, response_id}
use sftp_go.Server.Handles.{look_up, get_handle, no_handles}
use sftp_go.RequestServer.{
  Handlers, OpenRequest, RequestServer, Served, served, panics, ServerOption, apply_option,
  apply_options, with_rs_allocator, with_start_directory, with_rs_max_tx_packet, new_request_server,
}
use sftp_go.RequestServer.Transfer.{subject_id}
use sftp_go.RequestServer.Worker.{serve_request, serve_requests}
use sftp_go.RequestServer.Answers.{FitsPages, KeepsInterfaces}
use sftp_go.RequestServer.Ready.{AllUsable}
use sftp_go.RequestServer.Ready.Served.{IsReady, Answered, Decoded}
use sftp_go.RequestServer.Ready.Subjects.{serve_subject-Answered}

-- The id that the worker answers with.
subject_id_lem : (p : Packet) → SameId p → subject_id (subject_of p) ≡ packet_id p
unfolding subject_id subject_of packet_id specific_id
subject_id_lem (extended id request none) same = refl
subject_id_lem (extended id request (some s)) same = same
subject_id_lem p same = refl

no_handles-AllUsable : {O : Type 0} → AllUsable (no_handles {F = OpenRequest O})
unfolding no_handles get_handle look_up
no_handles-AllUsable k r e = absurd (cc e)

apply_option-open_requests :
    {W O : Type 0} (o : ServerOption) (rs : RequestServer W O)
    → (apply_option o rs).open_requests ≡ rs.open_requests
unfolding apply_option
apply_option-open_requests with_rs_allocator rs = refl
apply_option-open_requests (with_start_directory dir) rs = refl
apply_option-open_requests (with_rs_max_tx_packet size) rs = ground arith

-- The options leave the table of open requests as it was.
apply_options-open_requests :
    {W O : Type 0} (options : List ServerOption) (rs : RequestServer W O)
    → (apply_options options rs).open_requests ≡ rs.open_requests
unfolding apply_options
apply_options-open_requests [] rs = refl
apply_options-open_requests (o ∷ os) rs =
    apply_options-open_requests os (apply_option o rs) ∙ apply_option-open_requests o rs

-- A packet as the decoder gives it.
abbrev pub FromDecoder : ℕ × Packet → Type 0
FromDecoder x = SameId x.1 × Decoded (subject_of x.1)

-- All requests are answered, each with its id, by a server that is ready again.
abbrev pub AllAnswered :
    {W O : Type 0} → List (ℕ × Packet) → Option (List Response × RequestServer W O) → Type 0
AllAnswered {W} {O} packets result =
    (replies : List Response) × (rs : RequestServer W O) × (result ≡ some (replies, rs))
    × (map response_id replies ≡ map (λ (x : ℕ × Packet). packet_id x.1) packets)
    × IsReady rs

module _ {W O I : Type 0} (h : Handlers W O I) (keeps : KeepsInterfaces h) where
  serve_request-Answered :
      (order_id : ℕ) (p : Packet) (rs : RequestServer W O)
      → SameId p
      → Decoded (subject_of p)
      → IsReady rs
      → Answered (packet_id p) (serve_request h order_id p rs)
  unfolding serve_request
  serve_request-Answered order_id p rs same d v =
      rw (← subject_id_lem p same) (serve_subject-Answered h keeps order_id (subject_of p) rs d v)

  serve_requests-AllAnswered :
      (packets : List (ℕ × Packet)) (rs : RequestServer W O)
      → All FromDecoder packets
      → IsReady rs
      → AllAnswered packets (serve_requests h packets rs)
  unfolding serve_requests
  serve_requests-AllAnswered [] rs d v = ([], rs, refl, refl, v)
  serve_requests-AllAnswered ((order_id, p) ∷ rest) rs ((same, d), ds) v =
      first (serve_request h order_id p rs) refl (serve_request-Answered order_id p rs same d v)
        (λ rs' v'. serve_requests-AllAnswered rest rs' ds v')
    where
      first :
          (x : Served W O)
          → serve_request h order_id p rs ≡ x
          → Answered (packet_id p) x
          → ((rs' : RequestServer W O) → IsReady rs' → AllAnswered rest (serve_requests h rest rs'))
          → AllAnswered ((order_id, p) ∷ rest) (serve_requests h ((order_id, p) ∷ rest) rs)
      first panics e a later = elim a [ ]
      first (served reply rs') e (id, names, v') later =
          let (replies, rs'', done, ids, ready) = later rs' v' in
          (reply ∷ replies, rs'', simp (serve_requests, e, done), cc (id, ids), ready)

  -- The worker of a new server answers every packet that it receives, in order, each with one
  -- response that carries the packet's id, and does not panic; and each handle then names an open
  -- request that holds exactly the one object that its method uses. For packets as the decoder gives
  -- them; with an allocator, for a largest read of at most a page; and for handlers that are all provided, return and keep to their
  -- interfaces: they count no more bytes or entries than they have room for, no negative number and no
  -- entry that is nil, give an object where they give no error, and leave the request as it is.
  pub serve_requests-new_request_server :
      (options : List ServerOption) (w : W) (packets : List (ℕ × Packet))
      → All FromDecoder packets
      → FitsPages
          (new_request_server {O = O} options w).pages
          (new_request_server {O = O} options w).tx_packet_limit
      → AllAnswered packets (serve_requests h packets (new_request_server options w))
  unfolding new_request_server
  serve_requests-new_request_server options w packets d fits =
      serve_requests-AllAnswered packets (new_request_server options w) d
        (rw (apply_options-open_requests options) no_handles-AllUsable, fits)
