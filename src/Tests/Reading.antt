-- ===== src/Tests/Reading.antt =====
-- A client that reads a file of a server whose answers have two bytes at most.
use sftp_go.Base.{
  ℕ, ◌-◌, ◌<◌, ◌≡◌, refl, arith, some, [], ◌∷◌, length, take, drop, ◌++◌, Bool, true, false, leb,
  if◌then◌else◌,
}
use Prim.Native.Nat.{suc, min}
use sftp_go.Wire.{Bytes}
use sftp_go.Packet.{read}
use sftp_go.Packet.Fxp
use sftp_go.Server.Errors
use sftp_go.Response.{StatusError, marshal_status_packet, marshal_data}
use sftp_go.ClientConn.{Outcome, packet, failed}
use sftp_go.Client.{Request, plain, Client, eof}
use sftp_go.Client.Reads.{did, read_at_sequential}
use sftp_go.Client.Reads.Honest.{IsHonest, HonestAnswer, ended, delivered}
use sftp_go.Client.Reads.Sequential.{read_at_sequential-file}

abbrev served : Bytes
served = 10 ∷ 20 ∷ 30 ∷ 40 ∷ 50 ∷ []

abbrev end_of_file : StatusError
end_of_file = record { code = 1; msg = []; lang = [] }

abbrev piece_size : ℕ → ℕ → ℕ
piece_size len off = min 2 (min len (length served - off))

abbrev piece_answer : ℕ → ℕ → ℕ → Outcome
piece_answer id k off =
    let d = marshal_data id k (take k (drop off served)) in packet Fxp.content (drop 5 (d.0 ++ d.1))

abbrev answer_read : ℕ → ℕ → ℕ → Outcome
answer_read id len off =
    if leb (length served) off
    then packet Fxp.status (drop 5 (marshal_status_packet id end_of_file))
    else piece_answer id (piece_size len off) off

-- The connection counts the requests.
abbrev serve : Request → ℕ → Outcome × ℕ
serve (plain (read id len off handle)) w = (answer_read id len off, suc w)
serve _ w = (failed Errors.eof, w)

either-HonestAnswer :
    (id len off : ℕ) (over : Bool)
    → 0 < len
    → leb (length served) off ≡ over
    → HonestAnswer served id len off (
        if over
        then packet Fxp.status (drop 5 (marshal_status_packet id end_of_file))
        else piece_answer id (piece_size len off) off)
either-HonestAnswer id len off true some_bytes e =
    ended end_of_file refl (omega arith) (omega arith) (ground arith)
either-HonestAnswer id len off false some_bytes e =
    let inside : off < length served = ground arith in
    delivered (piece_size len off) (omega arith) (omega arith) (omega arith)

serve-IsHonest : IsHonest serve [] served
unfolding IsHonest
serve-IsHonest id len off w small some_bytes = either-HonestAnswer id len off _ some_bytes refl

-- Four bytes by packets of three.
read_at_sequential-file_example :
    (c' : Client ℕ) × (read_at_sequential serve [] 3 10 6 1 (record { nextid = 0; conn = 0 })
      ≡ did (20 ∷ 30 ∷ 40 ∷ 50 ∷ []) (some eof) c')
read_at_sequential-file_example =
    read_at_sequential-file serve [] served serve-IsHonest 3 10 6 1
      (record { nextid = 0; conn = 0 }) (omega arith) (omega arith) (omega arith) (omega arith)
