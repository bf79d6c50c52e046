-- ===== src/Tests/Listings.antt =====
-- A directory of three entries listed from its start.
use sftp_go.Base.{ℕ, ◌≡◌, arith, List, [], ◌∷◌, some, drop}
use sftp_go.Server.Errors.{eof}
use sftp_go.Requests.Listing.{list_all, list_at}
use sftp_go.Requests.Listing.Batches.{list_all-list_at}

abbrev entries : List ℕ
entries = 7 ∷ 8 ∷ 9 ∷ []

list_all-list_at_example : list_all 4 (list_at entries) 0 ≡ (drop 0 entries, some eof)
list_all-list_at_example = list_all-list_at 4 entries 0 (omega arith)
