-- ===== src/Client/Writes.antt =====
-- client.go: `writeChunkAt`, `writeAtConcurrent` and `writeAt`.
pub mod Store
pub mod Accepted
pub mod Rounds
pub mod Dispatched
pub mod Whole
use sftp_go.Base.{
  ℕ, zero, suc, ◌+◌, ◌-◌, ◌%◌, ◌^◌, Option, none, some, List, [], ◌∷◌, length, take, drop, ltb, leb,
  ◌==◌, if◌then◌else◌,
}
use sftp_go.Wire.{Bytes, ok, fail, panic, unmarshal_uint32}
use sftp_go.Packet.{write}
use sftp_go.Packet.Fxp
use sftp_go.ClientConn.{Outcome, packet, failed}
use sftp_go.Client.Calls.{status_result}
use sftp_go.Client.Schedule.{Schedule, earliest_error}
use sftp_go.Client.{
  ClientError, connection, unimplemented, Client, Sender, plain, send_request, status_error,
}

-- What a write returns: the bytes written, the error, and the client behind it; a panic; or the loop
-- needs more rounds.
pub data WriteResult (W : Type 0) : Type 0 where
  wrote : ℕ → Option ClientError → Client W → WriteResult W
  write_panicked : WriteResult W
  write_goes_on : WriteResult W

-- The error that the response to a write is, by its own id, or a panic.
unfoldable pub write_response : Outcome → Option (Option ClientError)
write_response (failed e) = some (some (connection e))
write_response (packet typ d) =
    if typ == Fxp.status
    then elim (unmarshal_uint32 d) [ ok id rest ↦ status_error id d | fail e ↦ none | panic ↦ none ]
    else some (some (unimplemented typ))

-- All of the bytes, or none.
unfoldable pub write_result :
    {W : Type 0} → ℕ → Option (Option ClientError) → Client W → WriteResult W
write_result n none c = write_panicked
write_result n (some none) c = wrote n none c
write_result n (some (some e)) c = wrote 0 (some e) c

unfoldable pub write_chunk_at :
    {W : Type 0} → Sender W → Bytes → Bytes → ℕ → Client W → WriteResult W
write_chunk_at send handle b off c =
    let (r, c') =
      send_request send (λ id. plain (write id (length b % 2 ^ 32) (off % 2 ^ 64) handle b)) c in
    write_result (length b) (write_response r) c'

-- The loop of `writeAt`, with what is written so far.
unfoldable pub write_at_rounds :
    {W : Type 0} → Sender W → Bytes → ℕ → ℕ → Bytes → ℕ → ℕ → Client W → WriteResult W
write_at_rounds send handle max_packet zero b off written c = write_goes_on
write_at_rounds send handle max_packet (suc fuel) b off written c =
    if ltb written (length b)
    then elim (write_chunk_at send handle (take max_packet (drop written b)) (off + written) c) [
      | write_goes_on ↦ write_goes_on
      | write_panicked ↦ write_panicked
      | wrote n err c' ↦ elim err [
        | some e ↦ wrote (written + n) (some e) c'
        | none ↦ write_at_rounds send handle max_packet fuel b off (written + n) c'
      ]
    ]
    else wrote (length b) none c

-- A request of `writeAtConcurrent`, and the result that its channel gets.
pub record Work : Type 0 where
  pub work_id : ℕ
  pub work_off : ℕ
  pub outcome : Outcome

-- The slicing goroutine. The server sees the requests in their order.
unfoldable pub dispatch_writes :
    {W : Type 0} → Sender W → Bytes → ℕ → ℕ → Bytes → ℕ → ℕ → Client W → List Work × Client W
dispatch_writes send handle max_packet zero b off read c = ([], c)
dispatch_writes send handle max_packet (suc rounds) b off read c =
    let wb = take max_packet (drop read b) in
    let at = off + read in
    let (r, c1) =
      send_request send (λ id. plain (write id (length wb % 2 ^ 32) (at % 2 ^ 64) handle wb)) c in
    let (works, c2) = dispatch_writes send handle max_packet rounds b off (read + length wb) c1 in
    if ltb read (length b)
    then (record { work_id = c1.nextid; work_off = at; outcome = r } ∷ works, c2)
    else ([], c)

-- What the workers send to `errCh`, or a panic.
unfoldable pub work_errors : List Work → Option (List (ℕ × ClientError))
work_errors [] = some []
work_errors (w ∷ ws) = elim (status_result w.work_id w.outcome) [
  | none ↦ none
  | some err ↦ elim (work_errors ws) [
    | none ↦ none
    | some errs ↦ elim err [ none ↦ some errs | some e ↦ some ((w.work_off, e) ∷ errs) ]
  ]
]

unfoldable pub write_at_concurrent :
    {W : Type 0} → Sender W → Bytes → ℕ → Schedule → Bytes → ℕ → Client W → WriteResult W
write_at_concurrent send handle max_packet schedule b off c =
    let (works, c') = dispatch_writes send handle max_packet schedule.dispatched b off 0 c in
    elim (work_errors (take schedule.received works)) [
      | none ↦ write_panicked
      | some errs ↦ elim (earliest_error none (schedule.arrival errs)) [
        | none ↦ wrote (length b) none c'
        | some f ↦ wrote (f.0 - off) (some f.1) c'
      ]
    ]

-- `writeAt`; a client that uses concurrent writes has a schedule.
unfoldable pub write_at :
    {W : Type 0} → Sender W → Bytes → ℕ → Option Schedule → ℕ → Bytes → ℕ → Client W → WriteResult W
write_at send handle max_packet concurrent fuel b off c =
    if leb (length b) max_packet then write_chunk_at send handle b off c else elim concurrent [
      | some schedule ↦ write_at_concurrent send handle max_packet schedule b off c
      | none ↦ write_at_rounds send handle max_packet fuel b off 0 c
    ]
