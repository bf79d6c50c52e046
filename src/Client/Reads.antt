-- ===== src/Client/Reads.antt =====
-- client.go: `readChunkAt` and `readAtSequential`, with the bytes that are stored in the slice in
-- place of the slice. Both are loops on fuel.
pub mod Parts
pub mod Honest
pub mod Chunk
pub mod Sequential
pub mod Earliest
pub mod Full
pub mod Merged
pub mod Dispatched
pub mod Whole
use sftp_go.Base.{
  ℕ, zero, suc, ◌+◌, ◌-◌, ◌%◌, ◌^◌, Option, none, some, List, [], ◌∷◌, ◌++◌, length, take,
  replicate, ltb, leb, ◌==◌, if◌then◌else◌,
}
use sftp_go.Wire.{Bytes, ok, fail, panic, unmarshal_uint32, split_at}
use sftp_go.Packet.{read}
use sftp_go.Packet.Fxp
use sftp_go.ClientConn.{Outcome, packet, failed, next_id}
use sftp_go.Client.Schedule.{Schedule, earliest_error}
use sftp_go.Client.{
  eof, is_closed, ClientError, connection, wrong_id, unimplemented, Client, Sender, plain,
  send_request, status_error,
}

-- What a read returns: the bytes read, the error, and the client behind it; a panic; or the loop
-- needs more rounds.
pub data ReadResult (W : Type 0) : Type 0 where
  did : Bytes → Option ClientError → Client W → ReadResult W
  read_panicked : ReadResult W
  goes_on : ReadResult W

-- What a round of `readChunkAt` makes of the response to the request with an id: it returns, it has
-- bytes to copy, or it panics.
pub data Round : Type 0 where
  returns : Option ClientError → Round
  copies : Bytes → Round
  panics : Round

unfoldable pub read_data : ℕ → Bytes → Round
read_data id d = elim (unmarshal_uint32 d) [
  | fail e ↦ panics
  | panic ↦ panics
  | ok sid d1 ↦
      if id == sid
      then elim (unmarshal_uint32 d1) [
        | fail e ↦ panics
        | panic ↦ panics
        | ok l d2 ↦ elim (split_at l d2) [
          | ok piece rest ↦ copies piece
          | fail e ↦ panics
          | panic ↦ panics
        ]
      ]
      else returns (some (wrong_id id sid))
]

unfoldable pub read_response : ℕ → Outcome → Round
read_response id (failed e) = returns (some (connection e))
read_response id (packet typ d) =
    if typ == Fxp.status
    then elim (status_error id d) [ none ↦ panics | some err ↦ returns err ]
    else if typ == Fxp.content
    then read_data id d
    else returns (some (unimplemented typ))

-- `readChunkAt` on a slice of so many bytes, of which some are read.
unfoldable pub read_chunk_at :
    {W : Type 0} → Sender W → Bytes → ℕ → ℕ → ℕ → Bytes → Client W → ReadResult W
read_chunk_at send handle zero size off so_far c = goes_on
read_chunk_at send handle (suc fuel) size off so_far c =
    let n = length so_far in
    let id = next_id c.nextid in
    let (r, c') =
      send_request send (λ i. plain (read i ((size - n) % 2 ^ 32) ((off + n) % 2 ^ 64) handle)) c in
    if ltb n size
    then elim (read_response id r) [
      | returns err ↦ did so_far err c'
      | panics ↦ read_panicked
      | copies piece ↦ read_chunk_at send handle fuel size off (so_far ++ take (size - n) piece) c'
    ]
    else did so_far none c

-- `readAtSequential`: the fuel for its rounds is that for the rounds of each chunk, too.
unfoldable pub read_at_rounds :
    {W : Type 0} → Sender W → Bytes → ℕ → ℕ → ℕ → ℕ → ℕ → Bytes → Client W → ReadResult W
read_at_rounds send handle max_packet chunk_fuel zero size off so_far c = goes_on
read_at_rounds send handle max_packet chunk_fuel (suc fuel) size off so_far c =
    let n = length so_far in
    let rb = if ltb max_packet (size - n) then max_packet else size - n in
    if ltb n size
    then elim (read_chunk_at send handle chunk_fuel rb (off + n) [] c) [
      | goes_on ↦ goes_on
      | read_panicked ↦ read_panicked
      | did piece err c' ↦ elim err [
        | some e ↦ did (so_far ++ piece) (some e) c'
        | none ↦ read_at_rounds send handle max_packet chunk_fuel fuel size off (so_far ++ piece) c'
      ]
    ]
    else did so_far none c

unfoldable pub read_at_sequential :
    {W : Type 0} → Sender W → Bytes → ℕ → ℕ → ℕ → ℕ → Client W → ReadResult W
read_at_sequential send handle max_packet fuel size off c =
    read_at_rounds send handle max_packet fuel fuel size off [] c

-- A request of `readAt`, with the bytes that its part of the slice has, and what its channel gets.
pub record ReadWork : Type 0 where
  pub read_id : ℕ
  pub read_off : ℕ
  pub room : ℕ
  pub reply : Outcome

-- The slicing goroutine; the length asked for is always that of a packet.
unfoldable pub dispatch_reads :
    {W : Type 0} → Sender W → Bytes → ℕ → ℕ → ℕ → ℕ → ℕ → Client W → List ReadWork × Client W
dispatch_reads send handle max_packet zero size off n c = ([], c)
dispatch_reads send handle max_packet (suc rounds) size off n c =
    let rb = if ltb max_packet (size - n) then max_packet else size - n in
    let at = off + n in
    let (r, c1) =
      send_request send (λ i. plain (read i (max_packet % 2 ^ 32) (at % 2 ^ 64) handle)) c in
    let (works, c2) = dispatch_reads send handle max_packet rounds size off (n + rb) c1 in
    if ltb n size
    then (record { read_id = c1.nextid; read_off = at; room = rb; reply = r } ∷ works, c2)
    else ([], c)

-- A worker: the bytes it copies, and its error; or a panic.
unfoldable pub copied : ℕ → Bytes → Bytes × Option ClientError
copied room piece = let p = take room piece in (p, if ltb (length p) room then some eof else none)

unfoldable pub read_work : ReadWork → Option (Bytes × Option ClientError)
read_work w = elim (read_response w.read_id w.reply) [
  | returns err ↦ some ([], err)
  | panics ↦ none
  | copies piece ↦ some (copied w.room piece)
]

-- The slice, zero where nothing was copied, and the errors with their offsets.
unfoldable pub merge_work :
    ReadWork
    → Bytes × Option ClientError
    → Bytes × List (ℕ × ClientError)
    → Bytes × List (ℕ × ClientError)
merge_work w (p, none) (buf, errs) = ((p ++ replicate (w.room - length p) 0) ++ buf, errs)
merge_work w (p, some e) (buf, errs) =
    ((p ++ replicate (w.room - length p) 0) ++ buf, (w.read_off + length p, e) ∷ errs)

unfoldable pub gather : List ReadWork → Option (Bytes × List (ℕ × ClientError))
gather [] = some ([], [])
gather (w ∷ ws) = elim (read_work w) [
  | none ↦ none
  | some done ↦ elim (gather ws) [ none ↦ none | some rest ↦ some (merge_work w done rest) ]
]

-- `readAt` with concurrent reads, into a slice of zeros.
unfoldable pub read_at_concurrent :
    {W : Type 0} → Sender W → Bytes → ℕ → Schedule → ℕ → ℕ → Client W → ReadResult W
read_at_concurrent send handle max_packet schedule size off c =
    let (works, c') = dispatch_reads send handle max_packet schedule.dispatched size off 0 c in
    elim (gather (take schedule.received works)) [
      | none ↦ read_panicked
      | some (buf, errs) ↦ elim (earliest_error none (schedule.arrival errs)) [
        | none ↦ did (take size buf) none c'
        | some f ↦ did (take (f.0 - off) buf) (some f.1) c'
      ]
    ]

-- `readAt` on an open file; a client that uses concurrent reads has a schedule.
unfoldable pub read_open_file :
    {W : Type 0} → Sender W → Bytes → ℕ → Option Schedule → ℕ → ℕ → ℕ → Client W → ReadResult W
read_open_file send handle max_packet concurrent fuel size off c =
    if leb size max_packet then read_chunk_at send handle fuel size off [] c else elim concurrent [
      | some schedule ↦ read_at_concurrent send handle max_packet schedule size off c
      | none ↦ read_at_sequential send handle max_packet fuel size off c
    ]

-- `readAt`: a file without a handle is closed.
unfoldable pub read_at :
    {W : Type 0} → Sender W → Bytes → ℕ → Option Schedule → ℕ → ℕ → ℕ → Client W → ReadResult W
read_at send handle max_packet concurrent fuel size off c =
    if length handle == 0
    then did [] (some is_closed) c
    else read_open_file send handle max_packet concurrent fuel size off c
