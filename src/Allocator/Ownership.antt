-- ===== src/Allocator/Ownership.antt =====
-- Who holds a page: no page is ever handed to two requests, and none is lost by a release.
use sftp_go.Base.{
  ℕ, suc, ◌+◌, ◌-◌, ◌≤◌, ◌≡◌, ◌≢◌, refl, arith, false, Option, none, some, List, [], ◌∷◌, ◌++◌,
  length, length-append, ◌==◌, if◌then◌else◌, Option-cases, inl, inr,
}
use sftp_go.Allocator.Pages.{
  find_used, occurs, occurs-append, held, held-put_used, held-delete_used, occurs-find_used-two,
  find_used-put_used, count_pages-delete_used, keys, keys-put_used-le, keys-delete_used-le,
  has_used-delete_used,
}
use sftp_go.Allocator.{
  Allocator, new_allocator, take_last, choose_page, get_page, release_pages, free, count_used_pages,
  count_available_pages, is_request_order_id_used, Call, gets, releases, frees, step, run,
}

-- How often a page is available or held.
abbrev pub owners : ℕ → Allocator → ℕ
owners p a = occurs p a.available + held p a.used

-- Every page is available or held once at most, a page not made yet nowhere, and a request order id
-- is one key of the map.
pub record IsSound (a : Allocator) : Type 0 where
  pub single : (p : ℕ) → owners p a ≤ 1
  pub fresh : (p : ℕ) → a.made ≤ p → owners p a ≡ 0
  pub distinct : (id : ℕ) → keys id a.used ≤ 1

-- `take_last` cuts off the last element.
abbrev LastOf : List ℕ → Option (List ℕ × ℕ) → Type 0
LastOf xs none = xs ≡ []
LastOf xs (some (ys, y)) = xs ≡ ys ++ y ∷ []

take_last-LastOf : (xs : List ℕ) → LastOf xs (take_last xs)
unfolding take_last
take_last-LastOf [] = refl
take_last-LastOf (x ∷ xs) = ground (arith, take_last-LastOf xs)

new_allocator-IsSound : IsSound new_allocator
unfolding new_allocator
new_allocator-IsSound = record {
  single = λ p. omega arith;
  fresh = λ p h. omega arith;
  distinct = λ id. omega arith;
}

-- What `choose_page` leaves: its page is counted once less than before, or is new.
module _ (a : Allocator) (v : IsSound a) where
  abbrev Chosen : ℕ × Allocator → Type 0
  Chosen (page, b) =
      ((p : ℕ) → owners p b + (if page == p then 1 else 0) ≤ 1)
      × ((p : ℕ) → b.made ≤ p → owners p b + (if page == p then 1 else 0) ≡ 0)
      × (b.used ≡ a.used)
      × (length b.available ≡ length a.available - 1)
      × (b.made ≡ (if length a.available == 0 then suc a.made else a.made))

  choose_page-Chosen : Chosen (choose_page a)
  unfolding choose_page
  choose_page-Chosen = elim (Option-cases (take_last a.available)) [
    | inl e ↦
        let empty : a.available ≡ [] = rw e at (take_last-LastOf a.available) in
        rw (e, choose_page)
          (
            (λ p. ground (arith, v.single p, v.fresh p)),
            (λ p h. ground (arith, v.fresh p)),
            refl,
            rw empty (omega arith),
            rw empty refl,
          )
    | inr ((rest, page), e) ↦
        let cut : a.available ≡ rest ++ page ∷ [] = rw e at (take_last-LastOf a.available) in
        rw (e, choose_page)
          (
            (λ p. ground (arith, v.single p, cut, occurs-append p rest (page ∷ []))),
            (λ p h. ground (arith, v.fresh p, cut, occurs-append p rest (page ∷ []))),
            refl,
            rw cut (omega (arith, length-append rest (page ∷ []))),
            ground (arith, cut, length-append rest (page ∷ [])),
          )
  ]

  -- `GetPage` keeps the table sound.
  get_page-IsSound : (id : ℕ) → IsSound (get_page id a).1
  unfolding get_page
  get_page-IsSound id = record {
    single = λ p. ground (arith, counted p, chosen.0 p);
    fresh = λ p h. ground (arith, counted p, chosen.1 p h);
    distinct = λ i. keys-put_used-le i id _ _ (rw chosen.2 (v.distinct i));
  }
    where
      chosen : Chosen (choose_page a)
      chosen = choose_page-Chosen

      counted :
          (p : ℕ)
          → owners p (get_page id a).1
            ≡ owners p (choose_page a).1 + (if (choose_page a).0 == p then 1 else 0)
      counted p = ground (
        arith,
        held-put_used p id (find_used id (choose_page a).1.used ++ (choose_page a).0 ∷ [])
            (choose_page a).1.used,
        occurs-append p (find_used id (choose_page a).1.used) ((choose_page a).0 ∷ []),
      )

  release_pages-owners : (id p : ℕ) → owners p (release_pages id a) ≡ owners p a
  unfolding release_pages
  release_pages-owners id p =
      ground
        (arith, held-delete_used p id a.used, occurs-append p a.available (find_used id a.used))

  release_pages-IsSound : (id : ℕ) → IsSound (release_pages id a)
  unfolding release_pages
  release_pages-IsSound id = record {
    single = λ p. omega (arith, release_pages-owners id p, v.single p);
    fresh = λ p h. omega (arith, release_pages-owners id p, v.fresh p h);
    distinct = λ i. omega (arith, keys-delete_used-le i id a.used, v.distinct i);
  }

  free-IsSound : IsSound (free a)
  unfolding free
  free-IsSound = record {
    single = λ p. omega arith;
    fresh = λ p h. omega arith;
    distinct = λ i. omega arith;
  }

  step-IsSound : (c : Call) → IsSound (step c a)
  unfolding step
  step-IsSound (gets id) = get_page-IsSound id
  step-IsSound (releases id) = release_pages-IsSound id
  step-IsSound frees = free-IsSound

run-IsSound : (cs : List Call) (a : Allocator) → IsSound a → IsSound (run cs a)
unfolding run
run-IsSound [] a v = v
run-IsSound (c ∷ cs) a v = run-IsSound cs (step c a) (step-IsSound a v c)

-- After any history of calls from a new allocator, a page is available or held once at most, no
-- page that was not made yet is anywhere, and no request order id is a key of the map twice.
pub run-new_allocator-IsSound : (cs : List Call) → IsSound (run cs new_allocator)
run-new_allocator-IsSound cs = run-IsSound cs new_allocator new_allocator-IsSound

get_page_held :
    (a : Allocator) (id : ℕ) → 1 ≤ occurs (get_page id a).0 (find_used id (get_page id a).1.used)
unfolding get_page
get_page_held a id =
    let (page, b) = choose_page a in
    rw (find_used-put_used id (find_used id b.used ++ page ∷ []) b.used)
      (ground (arith, occurs-append page (find_used id b.used) (page ∷ [])))

-- The page that `GetPage` returns belongs to the caller's request alone: it is among the pages of
-- that request once, among those of no other request, and not available; from a sound state.
pub get_page_exclusive :
    (a : Allocator) (id other : ℕ)
    → IsSound a
    → id ≢ other
    → (occurs (get_page id a).0 (find_used id (get_page id a).1.used) ≡ 1)
      × (occurs (get_page id a).0 (find_used other (get_page id a).1.used) ≡ 0)
      × (occurs (get_page id a).0 (get_page id a).1.available ≡ 0)
get_page_exclusive a id other v h =
    let page = (get_page id a).0 in
    let b = (get_page id a).1 in
    let once = (get_page-IsSound a v id).single page in
    let mine = get_page_held a id in
    let two = occurs-find_used-two page id other b.used h in (omega arith, omega arith, omega arith)

-- `ReleasePages` loses no page and makes none: every page is owned as often as before, the request
-- holds none and is no longer in use; from a sound state.
pub release_pages_conserves :
    (a : Allocator) (id : ℕ)
    → IsSound a
    → ((p : ℕ) → owners p (release_pages id a) ≡ owners p a)
      × (is_request_order_id_used id (release_pages id a) ≡ false)
      × (count_used_pages (release_pages id a) + count_available_pages (release_pages id a)
          ≡ count_used_pages a + count_available_pages a)
unfolding is_request_order_id_used count_used_pages count_available_pages release_pages
release_pages_conserves a id v = (
  (λ p. release_pages-owners a v id p),
  has_used-delete_used id a.used (v.distinct id),
  ground
      (arith, count_pages-delete_used id a.used, length-append a.available (find_used id a.used)),
)
