-- ===== src/Tests/Merging.antt =====
-- A client that reads a file by concurrent requests, from a server that answers in full.
use Prim.Native.Nat.{suc, min}
use sftp_go.Base.{
  ℕ, ◌-◌, ◌≡◌, refl, none, some, [], ◌∷◌, ◌++◌, length, take, drop, leb, if◌then◌else◌,
}
use sftp_go.Wire.{Bytes}
use sftp_go.Packet.{read}
use sftp_go.Packet.Fxp
use sftp_go.Server.Errors
use sftp_go.Response.{StatusError, marshal_status_packet, marshal_data}
use sftp_go.ClientConn.{Outcome, packet, failed}
use sftp_go.Client.{Request, plain, Client, eof, is_closed}
use sftp_go.Client.Schedule.{Schedule}
use sftp_go.Client.Reads.{did, read_at}

abbrev served : Bytes
served = 10 ∷ 20 ∷ 30 ∷ 40 ∷ 50 ∷ []

abbrev end_of_file : StatusError
end_of_file = record { code = 1; msg = []; lang = [] }

abbrev rest_size : ℕ → ℕ → ℕ
rest_size len off = min len (length served - off)

abbrev rest_answer : ℕ → ℕ → ℕ → Outcome
rest_answer id k off =
    let d = marshal_data id k (take k (drop off served)) in packet Fxp.content (drop 5 (d.0 ++ d.1))

abbrev serve_fully : Request → ℕ → Outcome × ℕ
serve_fully (plain (read id len off handle)) w = (
  if leb (length served) off
      then packet Fxp.status (drop 5 (marshal_status_packet id end_of_file))
      else rest_answer id (rest_size len off) off,
  suc w,
)
serve_fully _ w = (failed Errors.eof, w)

abbrev all_of_them : Schedule
all_of_them = record { dispatched = 6; received = 6; arrival = λ errs. errs }

-- A file without a handle is closed: nothing is sent.
closed_file :
    read_at serve_fully [] 2 none 9 6 1 (record { nextid = 0; conn = 0 })
    ≡ did [] (some is_closed) (record { nextid = 0; conn = 0 })
unfolding read_at
closed_file = refl
