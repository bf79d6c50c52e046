-- ===== src/Client/Writes/Accepted.antt =====
-- `writeAt` against a server that carries out every write and says so.
use sftp_go.Base.{ℕ, ◌%◌, ◌^◌, ◌<◌, ◌≡◌, refl, ap, ◌∙◌, arith, none, some, length, drop}
use sftp_go.Wire.{Bytes, unmarshal_uint32}
use sftp_go.Wire.RoundTrip.{unmarshal_uint32_bytes}
use sftp_go.Packet.{write}
use sftp_go.Packet.Fxp
use sftp_go.Response.{StatusError, marshal_status_packet}
use sftp_go.Response.RoundTrip.{status_body, unmarshal_status-marshal_status_packet}
use sftp_go.ClientConn.{Outcome, packet, next_id}
use sftp_go.Client.{Client, Sender, plain, send_request, normalise_error, status_error}
use sftp_go.Client.Calls.{status_result}
use sftp_go.Client.Writes.{wrote, write_response, write_result, write_chunk_at}
use sftp_go.Client.Writes.Store.{store}

-- The answer to a write, and the state behind it: a status that says OK, and the bytes are stored.
pub data Accepted {W : Type 0} (file_of : W → Bytes) (id off : ℕ) (d : Bytes) (w : W)
    : Outcome × W → Type 0 where
  accepted :
      (e : StatusError) (w' : W)
      → e.code ≡ 0
      → length e.msg < 2 ^ 32
      → length e.lang < 2 ^ 32
      → file_of w' ≡ store off d (file_of w)
      → Accepted file_of id off d w (packet Fxp.status (drop 5 (marshal_status_packet id e)), w')

-- The server behind the connection has a file open under the handle.
unfoldable pub IsAccepting : {W : Type 0} → Sender W → (W → Bytes) → Bytes → Type 0
IsAccepting {W} send file_of handle =
    (id off : ℕ) (d : Bytes) (w : W)
    → id < 2 ^ 32
    → length d < 2 ^ 32
    → Accepted file_of id off d w (send (plain (write id (length d) off handle d)) w)

write_response_lem :
    (id : ℕ) (e : StatusError)
    → id < 2 ^ 32
    → e.code ≡ 0
    → length e.msg < 2 ^ 32
    → length e.lang < 2 ^ 32
    → write_response (packet Fxp.status (drop 5 (marshal_status_packet id e))) ≡ some none
unfolding write_response status_error normalise_error
write_response_lem id e hi hc hm hl =
    rw (ap unmarshal_uint32 (status_body id e) ∙ unmarshal_uint32_bytes id _ hi) (
      rw
        (
          status_error,
          unmarshal_status-marshal_status_packet id id e hi (rw hc (omega arith)) hm hl,
        )
        (ground arith))

status_result_lem :
    (id : ℕ) (e : StatusError)
    → id < 2 ^ 32
    → e.code ≡ 0
    → length e.msg < 2 ^ 32
    → length e.lang < 2 ^ 32
    → status_result id (packet Fxp.status (drop 5 (marshal_status_packet id e))) ≡ some none
unfolding status_result status_error normalise_error
status_result_lem id e hi hc hm hl =
    rw (status_error, unmarshal_status-marshal_status_packet id id e hi (rw hc (omega arith)) hm hl)
      (ground arith)

-- What a request that was accepted leaves.
after :
    {W : Type 0} (file_of : W → Bytes) (id off : ℕ) (b : Bytes) (w : W) (a : Outcome × W)
    → id < 2 ^ 32
    → Accepted file_of id off b w a
    → (write_result (length b) (write_response a.0) (record { nextid = id; conn = a.1 })
        ≡ wrote (length b) none (record { nextid = id; conn = a.1 }))
      × (file_of a.1 ≡ store off b (file_of w))
unfolding write_result
after file_of id off b w a hi (accepted e w' hc hm hl h) =
    (rw (write_response_lem id e hi hc hm hl) refl, h)

after_request :
    {W : Type 0} (file_of : W → Bytes) (id off : ℕ) (b : Bytes) (w : W) (a : Outcome × W)
    → id < 2 ^ 32
    → Accepted file_of id off b w a
    → (status_result id a.0 ≡ some none) × (file_of a.1 ≡ store off b (file_of w))
after_request file_of id off b w a hi (accepted e w' hc hm hl h) =
    (status_result_lem id e hi hc hm hl, h)

module _ {W : Type 0} (send : Sender W) (file_of : W → Bytes) (handle : Bytes)
    (accepting : IsAccepting send file_of handle) where
  abbrev pub written : Bytes → ℕ → Client W → Outcome × Client W
  written b off c =
      send_request send (λ id. plain (write id (length b % 2 ^ 32) (off % 2 ^ 64) handle b)) c

  pub write_chunk_at-store :
      (b : Bytes) (off : ℕ) (c : Client W)
      → length b < 2 ^ 32
      → off < 2 ^ 64
      → (c' : Client W) × (write_chunk_at send handle b off c ≡ wrote (length b) none c')
        × (file_of c'.conn ≡ store off b (file_of c.conn))
  unfolding write_chunk_at send_request next_id IsAccepting
  write_chunk_at-store b off c small inside =
      let id : ℕ = next_id c.nextid in
      let a : Outcome × W = send (plain (write id (length b) off handle b)) c.conn in
      let (result, stored) =
        after file_of id off b c.conn a (omega arith)
          (accepting id off b c.conn (omega arith) small) in
      (record { nextid = id; conn = a.1 }, rw (len_eq) (rw at_eq result), stored)
    where
      len_eq : length b % 2 ^ 32 ≡ length b
      len_eq = omega arith

      at_eq : off % 2 ^ 64 ≡ off
      at_eq = omega arith

  -- The same for a request of `writeAtConcurrent`.
  pub request-store :
      (b : Bytes) (off : ℕ) (c : Client W)
      → length b < 2 ^ 32
      → off < 2 ^ 64
      → (status_result (written b off c).1.nextid (written b off c).0 ≡ some none)
        × (file_of (written b off c).1.conn ≡ store off b (file_of c.conn))
  unfolding send_request next_id IsAccepting
  request-store b off c small inside =
      let id : ℕ = next_id c.nextid in
      let a : Outcome × W = send (plain (write id (length b) off handle b)) c.conn in
      rw len_eq (
        rw at_eq (
          after_request file_of id off b c.conn a (omega arith)
            (accepting id off b c.conn (omega arith) small)))
    where
      len_eq : length b % 2 ^ 32 ≡ length b
      len_eq = omega arith

      at_eq : off % 2 ^ 64 ≡ off
      at_eq = omega arith
