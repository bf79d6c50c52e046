-- ===== src/Client.antt =====
-- client.go: the client's requests. What `sendPacket` does, sending a request and waiting for the
-- result of its channel, is a function of the connection's state, a parameter.
pub mod Calls
pub mod Schedule
pub mod Setting
pub mod Reads
pub mod Writes
use sftp_go.Base.{ℕ, Option, none, some, [], ◌==◌, if◌then◌else◌}
use sftp_go.Wire.{Bytes, Error}
use sftp_go.Packet.{Packet}
use sftp_go.Packet.Encode.{
  marshal_packet, marshal_statvfs, marshal_posix_rename, marshal_hardlink, marshal_fsync,
}
use sftp_go.Server.Errors.{GoError}
use sftp_go.Response.{StatusError, Status, reported, unexpected_id, crashed, unmarshal_status}
use sftp_go.ClientConn.{Outcome, packet, failed, next_id}

-- A packet that the client sends: one of those that servers decode, or one of its own.
pub data Request : Type 0 where
  plain : Packet → Request
  statvfs : ℕ → Bytes → Request
  posix_rename hardlink : ℕ → Bytes → Bytes → Request
  fsync : ℕ → Bytes → Request

-- `marshalPacket` on it.
unfoldable pub marshal_client_request : Request → Option (Bytes × Bytes)
marshal_client_request (plain p) = marshal_packet p
marshal_client_request (statvfs id path) = some (marshal_statvfs id path, [])
marshal_client_request (posix_rename id old new) = some (marshal_posix_rename id old new, [])
marshal_client_request (hardlink id old new) = some (marshal_hardlink id old new, [])
marshal_client_request (fsync id handle) = some (marshal_fsync id handle, [])

-- The errors that the client's methods return: one of the connection, or what became of a response.
pub data ClientError : Type 0 where
  connection : GoError → ClientError
  eof not_exist permission is_closed : ClientError
  status : StatusError → ClientError
  wrong_id : ℕ → ℕ → ClientError
  unimplemented : ℕ → ClientError
  unexpected_count : ℕ → ℕ → ClientError
  malformed : Error → ClientError
  unexpected_packet : ℕ → ℕ → ClientError

-- `Client`: the last id given out, and the connection's state.
pub record Client (W : Type 0) : Type 0 where
  pub nextid : ℕ
  pub conn : W

-- `sendPacket`.
abbrev pub Sender : Type 0 → Type 0
Sender W = Request → W → Outcome × W

-- `c.nextID()` and `c.sendPacket` with the packet that has the id.
unfoldable pub send_request :
    {W : Type 0} → Sender W → (ℕ → Request) → Client W → Outcome × Client W
send_request send make c =
    let id = next_id c.nextid in
    let (r, w) = send (make id) c.conn in (r, record { nextid = id; conn = w })

-- `normaliseError` on a status.
unfoldable pub normalise_error : StatusError → Option ClientError
normalise_error e =
    if e.code == 1
    then some eof
    else if e.code == 2
    then some not_exist
    else if e.code == 3
    then some permission
    else if e.code == 0
    then none
    else some (status e)

-- `normaliseError(unmarshalStatus(id, data))`: an error or nil, or a run-time panic.
unfoldable pub status_error : ℕ → Bytes → Option (Option ClientError)
status_error id d = elim (unmarshal_status id d) [
  | reported e ↦ some (normalise_error e)
  | unexpected_id want got ↦ some (some (wrong_id want got))
  | crashed ↦ none
]
