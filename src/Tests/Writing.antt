-- ===== src/Tests/Writing.antt =====
-- A client that writes to a server that stores everything.
use sftp_go.Base.{some, ◌≡◌, refl, arith, none, [], ◌∷◌, drop}
use sftp_go.Wire.{Bytes}
use sftp_go.Packet.{write}
use sftp_go.Packet.Fxp
use sftp_go.Server.Errors
use sftp_go.Response.{StatusError, marshal_status_packet}
use sftp_go.ClientConn.{Outcome, packet, failed}
use sftp_go.Client.{Request, plain, Client}
use sftp_go.Client.Writes.{wrote, write_at}
use sftp_go.Client.Schedule.{Schedule}
use sftp_go.Client.Writes.Store.{store, padded}
use sftp_go.Client.Writes.Accepted.{IsAccepting, accepted}
use sftp_go.Client.Writes.Whole.{Serves, write_at-store}

abbrev all_well : StatusError
all_well = record { code = 0; msg = []; lang = [] }

-- The connection's state is the file.
abbrev keep : Request → Bytes → Outcome × Bytes
keep (plain (write id len off handle d)) file =
    (packet Fxp.status (drop 5 (marshal_status_packet id all_well)), store off d file)
keep _ file = (failed Errors.eof, file)

keep-IsAccepting : IsAccepting keep (λ file. file) []
unfolding IsAccepting
keep-IsAccepting id off d file small few =
    accepted all_well (store off d file) refl (omega arith) (omega arith) refl

abbrev idle : Client Bytes
idle = record { nextid = 0; conn = 1 ∷ 2 ∷ [] }

-- All requests are dispatched and all errors reported.
abbrev at_once : Schedule
at_once = record { dispatched = 9; received = 9; arrival = λ errs. errs }

at_once-Serves : Serves 3 (some at_once)
unfolding Serves
at_once-Serves = (omega arith, refl)

-- Three bytes by packets of two at the same time, behind a hole of one.
write_at-store_example :
    (c' : Client Bytes) × (write_at keep [] 2 (some at_once) 9 (7 ∷ 8 ∷ 9 ∷ []) 3 idle
      ≡ wrote 3 none c')
    × (c'.conn ≡ store 3 (7 ∷ 8 ∷ 9 ∷ []) (1 ∷ 2 ∷ []))
write_at-store_example =
    write_at-store keep (λ file. file) [] keep-IsAccepting 2 9 (some at_once) (7 ∷ 8 ∷ 9 ∷ []) 3
      idle (omega arith) (omega arith) (omega arith) (omega arith) at_once-Serves

stored : store 3 (7 ∷ 8 ∷ 9 ∷ []) (1 ∷ 2 ∷ []) ≡ 1 ∷ 2 ∷ 0 ∷ 7 ∷ 8 ∷ 9 ∷ []
unfolding store padded
stored = refl
