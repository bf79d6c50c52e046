-- ===== src/Client/Schedule.antt =====
-- client.go: what concurrent reads and writes of a file share, the freedom of the scheduler and the
-- choice of the error to report.
use sftp_go.Base.{ℕ, Option, none, some, List, [], ◌∷◌, leb, if◌then◌else◌}
use sftp_go.Client.{ClientError}

-- What the scheduler decides: how many requests are dispatched at most and how many of them reach a
-- worker, before an error cancels the slicing, and in which order the workers report errors.
pub record Schedule : Type 0 where
  pub dispatched : ℕ
  pub received : ℕ
  pub arrival : List (ℕ × ClientError) → List (ℕ × ClientError)

-- The reduction to the error with the earliest offset, a later one before an earlier one with the
-- same; there is none at first.
unfoldable pub earliest_error :
    Option (ℕ × ClientError) → List (ℕ × ClientError) → Option (ℕ × ClientError)
earliest_error first [] = first
earliest_error none (e ∷ es) = earliest_error (some e) es
earliest_error (some f) (e ∷ es) = earliest_error (if leb e.0 f.0 then some e else some f) es
