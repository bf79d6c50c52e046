-- ===== src/Client/Writes/Whole.antt =====
-- client.go, `writeAt` against an accepting server, whether its writes are concurrent or not.
use sftp_go.Base.{leb-true, leb-false, ℕ, ◌+◌, ◌^◌, ◌<◌, ◌≤◌, ◌≡◌, ap, arith, none, some, length}
use native.Mathlib.Decide.{dec_lt}
use sftp_go.Wire.{Bytes}
use sftp_go.Client.{Client, Sender}
use sftp_go.Client.Writes.{wrote, write_at}
use sftp_go.Client.Writes.Store.{store}
use sftp_go.Client.Writes.Accepted.{IsAccepting, write_chunk_at-store}
use sftp_go.Client.Writes.Rounds.{write_at_rounds-store}
use sftp_go.Client.Writes.Store.{plus_zero}
use sftp_go.Client.Schedule.{Schedule}
use sftp_go.Client.Writes.Dispatched.{write_at_concurrent-store}
use sftp_go.Base.{Option, [], ◌≤◌}

-- What is asked of a schedule: requests enough to be dispatched, and no error that no worker reports.
unfoldable pub Serves : ℕ → Option Schedule → Type 0
Serves n none = Unit
Serves n (some schedule) = (n ≤ schedule.dispatched) × (schedule.arrival [] ≡ [])

-- `writeAt`, with concurrent writes or without, against a server that stores the bytes of every write
-- and answers OK; packets have a size below 2 ^ 32, and there is more fuel than bytes, or requests
-- enough where they are concurrent: the call ends, all bytes are reported as written, and the server's
-- file is the one that a single write of all of them at the offset makes of it.
pub write_at-store :
    {W : Type 0} (send : Sender W) (file_of : W → Bytes) (handle : Bytes)
    → IsAccepting send file_of handle
    → (max_packet fuel : ℕ) (concurrent : Option Schedule) (b : Bytes) (off : ℕ) (c : Client W)
    → 0 < max_packet
    → max_packet < 2 ^ 32
    → off + length b < 2 ^ 64
    → length b < fuel
    → Serves (length b) concurrent
    → (c' : Client W) × (write_at send handle max_packet concurrent fuel b off c
        ≡ wrote (length b) none c')
      × (file_of c'.conn ≡ store off b (file_of c.conn))
unfolding write_at Serves
write_at-store send file_of handle accepting max_packet fuel none b off c room small inside enough
      serves =
    elim (dec_lt max_packet (length b)) [
      | no few ↦
          rw (leb-true few)
            (write_chunk_at-store send file_of handle accepting b off c (omega arith) (omega arith))
      | yes many ↦ rw (leb-false many) (
          write_at_rounds-store send file_of handle accepting max_packet fuel 0 b off
            (file_of c.conn) c room small inside (omega arith) (omega arith)
            (λ d. ap (λ i. store i d (file_of c.conn)) (plus_zero off)))
    ]
write_at-store send file_of handle accepting max_packet fuel (some schedule) b off c room small
      inside enough (all, quiet) =
    elim (dec_lt max_packet (length b)) [
      | no few ↦
          rw (leb-true few)
            (write_chunk_at-store send file_of handle accepting b off c (omega arith) (omega arith))
      | yes many ↦ rw (leb-false many) (
          write_at_concurrent-store send file_of handle accepting max_packet schedule b off c room
            small inside (omega arith) all quiet)
    ]
