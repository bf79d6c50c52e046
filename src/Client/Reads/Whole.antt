-- ===== src/Client/Reads/Whole.antt =====
-- client.go, `readAt` against a server that answers in full, with concurrent reads or without.
use sftp_go.Base.{ℕ, ◌-◌, ◌≤◌, Option, none, some, List, take}
use sftp_go.Wire.{Bytes}
use sftp_go.Client.{ClientError, Client}
use sftp_go.Client.Schedule.{Schedule, earliest_error}
use sftp_go.Client.Reads.{ReadResult, did}
use sftp_go.Client.Reads.Earliest.{Occurs}

-- The workers report the errors that there are, in some order.
abbrev pub IsFair : (List (ℕ × ClientError) → List (ℕ × ClientError)) → Type 0
IsFair arrival =
    ((errs : List (ℕ × ClientError)) (e : ℕ × ClientError)
      → Occurs e errs
      → Occurs e (arrival errs))
    × ((errs : List (ℕ × ClientError)) (e : ℕ × ClientError)
        → Occurs e (arrival errs)
        → Occurs e errs)

-- Every request is dispatched and reaches a worker.
unfoldable pub ServesReads : ℕ → Option Schedule → Type 0
ServesReads size none = Unit
ServesReads size (some schedule) =
    (size ≤ schedule.dispatched)
    × (schedule.dispatched ≤ schedule.received)
    × IsFair schedule.arrival

-- The outcome of the reduction.
reduce_errors :
    {W : Type 0} → ℕ → ℕ → Schedule → Bytes × List (ℕ × ClientError) → Client W → ReadResult W
reduce_errors size off schedule (buf, errs) c = elim (earliest_error none (schedule.arrival errs)) [
  | none ↦ did (take size buf) none c
  | some f ↦ did (take (f.0 - off) buf) (some f.1) c
]
