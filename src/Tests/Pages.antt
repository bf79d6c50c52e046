-- ===== src/Tests/Pages.antt =====
-- The allocator over two requests.
use sftp_go.Base.{ℕ, ◌+◌, ◌≡◌, refl, arith, false, List, [], ◌∷◌}
use sftp_go.Allocator.{
  Allocator, new_allocator, get_page, choose_page, take_last, release_pages, count_used_pages,
  count_available_pages, is_request_order_id_used, Call, gets, releases, step, run,
}
use sftp_go.Allocator.Pages.{find_used, occurs, put_used}
use sftp_go.Allocator.Ownership.{
  IsSound, owners, run-new_allocator-IsSound, get_page_exclusive, release_pages_conserves,
}

abbrev history : List Call
history = gets 1 ∷ gets 1 ∷ gets 2 ∷ releases 1 ∷ []

left : Allocator
left = run history new_allocator

run-new_allocator-IsSound_example : IsSound (run history new_allocator)
run-new_allocator-IsSound_example = run-new_allocator-IsSound history

-- The next page is one that request 1 has given back.
reused : (get_page 3 left).0 ≡ 1
unfolding left run step new_allocator get_page choose_page take_last release_pages find_used
    put_used
reused = refl

get_page_exclusive_example :
    (occurs (get_page 3 left).0 (find_used 3 (get_page 3 left).1.used) ≡ 1)
    × (occurs (get_page 3 left).0 (find_used 2 (get_page 3 left).1.used) ≡ 0)
    × (occurs (get_page 3 left).0 (get_page 3 left).1.available ≡ 0)
unfolding left
get_page_exclusive_example =
    get_page_exclusive left 3 2 (run-new_allocator-IsSound history) (omega arith)

release_pages_conserves_example :
    ((p : ℕ) → owners p (release_pages 2 left) ≡ owners p left)
    × (is_request_order_id_used 2 (release_pages 2 left) ≡ false)
    × (count_used_pages (release_pages 2 left) + count_available_pages (release_pages 2 left)
        ≡ count_used_pages left + count_available_pages left)
unfolding left
release_pages_conserves_example = release_pages_conserves left 2 (run-new_allocator-IsSound history)
