-- ===== src/Tests/Naming.antt =====
-- Handles opened and closed.
use sftp_go.Base.{ℕ, ◌≡◌, ◌≢◌, refl, arith, none, some, List, [], ◌∷◌, codes, same_bytes}
use sftp_go.Wire.{Bytes}
use sftp_go.Server.Handles.{
  HandleTable, Use, opens, closes, no_handles, next_handle, get_handle, close_handle, use_handles,
  use_handle, look_up, delete,
}
use sftp_go.Server.Handles.Decimal.{itoa, decimal}
use sftp_go.Server.Handles.Fresh.{
  Issued, Numbered, next_handle_fresh, closed_stays_closed, use_handles-Numbered,
}

abbrev day : List (Use ℕ)
day = opens 5 ∷ opens 6 ∷ closes (codes "1") ∷ []

evening : HandleTable ℕ
evening = use_handles day no_handles

use_handles-Numbered_example : Numbered (use_handles day no_handles)
use_handles-Numbered_example = use_handles-Numbered day (omega arith)

evening_count : evening.handle_count ≡ 2
unfolding evening use_handles use_handle next_handle close_handle no_handles look_up delete itoa
    decimal same_bytes
evening_count = refl

one_closed : get_handle (codes "1") evening ≡ none
unfolding evening use_handles use_handle next_handle close_handle no_handles look_up delete itoa
    decimal get_handle same_bytes
one_closed = refl

one-Issued : Issued (codes "1") evening
unfolding itoa decimal
one-Issued = (1, omega (arith, evening_count), refl)

next_handle_fresh_example :
    (get_handle (next_handle 7 evening).0 evening ≡ none)
    × (get_handle (next_handle 7 evening).0 (next_handle 7 evening).1 ≡ some 7)
    × ((k : Bytes)
        → k ≢ (next_handle 7 evening).0
        → get_handle k (next_handle 7 evening).1 ≡ get_handle k evening)
unfolding evening
next_handle_fresh_example =
    next_handle_fresh 7 evening (use_handles-Numbered day (omega arith))
      (omega (arith, evening_count))

closed_stays_closed_example : get_handle (codes "1") (use_handles day evening) ≡ none
closed_stays_closed_example =
    closed_stays_closed day evening (codes "1") one-Issued one_closed (omega (arith, evening_count))
