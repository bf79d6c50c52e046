-- ===== src/Allocator.antt =====
-- allocator.go: pages handed out per request order id, taken back when the request is answered.
-- A page is named by a number; `made` counts the pages made so far, so that a new one has a new
-- name. Each method holds the mutex for its whole body, and is one step here.
pub mod Pages
pub mod Ownership
use sftp_go.Base.{
  ℕ, suc, ◌+◌, ◌≡◌, refl, Bool, true, false, Option, none, some, List, [], ◌∷◌, ◌++◌, length,
}
use Pages.{Table, find_used, has_used, put_used, delete_used, count_pages}

pub record Allocator : Type 0 where
  pub available : List ℕ
  pub used : Table
  pub made : ℕ

unfoldable pub new_allocator : Allocator
new_allocator = record { available = []; used = []; made = 0 }

-- The last element of a slice, and the slice without it.
unfoldable pub take_last : List ℕ → Option (List ℕ × ℕ)
take_last [] = none
take_last (x ∷ xs) = elim (take_last xs) [ none ↦ some ([], x) | some (ys, y) ↦ some (x ∷ ys, y) ]

-- The page and the state after: the last available page, or a new one.
unfoldable pub choose_page : Allocator → ℕ × Allocator
choose_page a = elim (take_last a.available) [
  | none ↦ (a.made, record a { made = suc a.made })
  | some (rest, page) ↦ (page, record a { available = rest })
]

-- `GetPage`.
unfoldable pub get_page : ℕ → Allocator → ℕ × Allocator
get_page id a =
    let (page, a') = choose_page a in
    (page, record a' { used = put_used id (find_used id a'.used ++ page ∷ []) a'.used })

-- `ReleasePages`. (Appending no pages when the request holds none changes nothing, as in the code's
-- test of `len(used)`.)
unfoldable pub release_pages : ℕ → Allocator → Allocator
release_pages id a = record a {
  available = elim (find_used id a.used) [ [] ↦ a.available | x ∷ xs ↦ a.available ++ x ∷ xs ];
  used = delete_used id a.used;
}

-- `Free`.
unfoldable pub free : Allocator → Allocator
free a = record a { available = []; used = [] }

unfoldable pub count_used_pages : Allocator → ℕ
count_used_pages a = count_pages a.used

unfoldable pub count_available_pages : Allocator → ℕ
count_available_pages a = length a.available

unfoldable pub is_request_order_id_used : ℕ → Allocator → Bool
is_request_order_id_used id a = has_used id a.used

-- A history of calls, and the state that it leaves.
pub data Call : Type 0 where
  gets releases : ℕ → Call
  frees : Call

unfoldable pub step : Call → Allocator → Allocator
step (gets id) a = (get_page id a).1
step (releases id) a = release_pages id a
step frees a = free a

unfoldable pub run : List Call → Allocator → Allocator
run [] a = a
run (c ∷ cs) a = run cs (step c a)
