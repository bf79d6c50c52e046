-- ===== src/Allocator/Pages.antt =====
-- The map `used`, from a request order id to the pages that it holds, as an association list; and
-- the number of times that a page stands in a list.
use sftp_go.Base.{
  ℕ, ◌+◌, ◌≤◌, ◌≡◌, ◌≢◌, refl, arith, Bool, true, false, ◌&&◌, List, [], ◌∷◌, ◌++◌, length, ◌==◌,
  if◌then◌else◌,
}

abbrev pub Table : Type 0
Table = List (ℕ × List ℕ)

-- A missing key gives the nil slice.
unfoldable pub find_used : ℕ → Table → List ℕ
find_used id [] = []
find_used id ((k, pages) ∷ m) = if k == id then pages else find_used id m

unfoldable pub has_used : ℕ → Table → Bool
has_used id [] = false
has_used id ((k, pages) ∷ m) = if k == id then true else has_used id m

unfoldable pub put_used : ℕ → List ℕ → Table → Table
put_used id v [] = (id, v) ∷ []
put_used id v ((k, pages) ∷ m) = if k == id then (id, v) ∷ m else (k, pages) ∷ put_used id v m

unfoldable pub delete_used : ℕ → Table → Table
delete_used id [] = []
delete_used id ((k, pages) ∷ m) = if k == id then m else (k, pages) ∷ delete_used id m

-- The loop of `countUsedPages`.
unfoldable pub count_pages : Table → ℕ
count_pages [] = 0
count_pages ((k, pages) ∷ m) = length pages + count_pages m

abbrev pub occurs : ℕ → List ℕ → ℕ
occurs p [] = 0
occurs p (x ∷ xs) = (if x == p then 1 else 0) + occurs p xs

pub occurs-append : (p : ℕ) (xs ys : List ℕ) → occurs p (xs ++ ys) ≡ occurs p xs + occurs p ys
occurs-append p [] ys = omega arith
occurs-append p (x ∷ xs) ys = omega (arith, occurs-append p xs ys)

-- How often a page is held, by any request.
abbrev pub held : ℕ → Table → ℕ
held p [] = 0
held p ((k, pages) ∷ m) = occurs p pages + held p m

pub held-put_used :
    (p id : ℕ) (v : List ℕ) (m : Table)
    → held p (put_used id v m) + occurs p (find_used id m) ≡ held p m + occurs p v
unfolding put_used find_used
held-put_used p id v [] = omega arith
held-put_used p id v ((k, pages) ∷ m) = ground (arith, held-put_used p id v m)

pub held-delete_used :
    (p id : ℕ) (m : Table) → held p (delete_used id m) + occurs p (find_used id m) ≡ held p m
unfolding delete_used find_used
held-delete_used p id [] = omega arith
held-delete_used p id ((k, pages) ∷ m) = ground (arith, held-delete_used p id m)

pub occurs-find_used-le : (p id : ℕ) (m : Table) → occurs p (find_used id m) ≤ held p m
unfolding find_used
occurs-find_used-le p id [] = omega arith
occurs-find_used-le p id ((k, pages) ∷ m) = ground (arith, occurs-find_used-le p id m)

-- Two requests hold apart what the table counts together.
pub occurs-find_used-two :
    (p i j : ℕ) (m : Table) → i ≢ j → occurs p (find_used i m) + occurs p (find_used j m) ≤ held p m
unfolding find_used
occurs-find_used-two p i j [] h = omega arith
occurs-find_used-two p i j ((k, pages) ∷ m) h =
    ground
      (arith, occurs-find_used-two p i j m h, occurs-find_used-le p i m, occurs-find_used-le p j m)

pub find_used-put_used : (id : ℕ) (v : List ℕ) (m : Table) → find_used id (put_used id v m) ≡ v
unfolding find_used put_used
find_used-put_used id v [] = ground arith
find_used-put_used id v ((k, pages) ∷ m) = ground (arith, find_used-put_used id v m)

pub count_pages-put_used :
    (id : ℕ) (v : List ℕ) (m : Table)
    → count_pages (put_used id v m) + length (find_used id m) ≡ count_pages m + length v
unfolding put_used find_used count_pages
count_pages-put_used id v [] = omega arith
count_pages-put_used id v ((k, pages) ∷ m) = ground (arith, count_pages-put_used id v m)

pub count_pages-delete_used :
    (id : ℕ) (m : Table) → count_pages (delete_used id m) + length (find_used id m) ≡ count_pages m
unfolding delete_used find_used count_pages
count_pages-delete_used id [] = omega arith
count_pages-delete_used id ((k, pages) ∷ m) = ground (arith, count_pages-delete_used id m)

-- The keys of a map are distinct.
abbrev pub keys : ℕ → Table → ℕ
keys id [] = 0
keys id ((k, pages) ∷ m) = (if k == id then 1 else 0) + keys id m

keys-put_used :
    (i id : ℕ) (v : List ℕ) (m : Table)
    → keys i (put_used id v m) ≡ keys i m + (if i == id && keys id m == 0 then 1 else 0)
unfolding put_used
keys-put_used i id v [] = ground arith
keys-put_used i id v ((k, pages) ∷ m) = ground (arith, keys-put_used i id v m)

pub keys-put_used-le :
    (i id : ℕ) (v : List ℕ) (m : Table) → keys i m ≤ 1 → keys i (put_used id v m) ≤ 1
keys-put_used-le i id v m h = ground (arith, keys-put_used i id v m)

pub keys-delete_used-le : (i id : ℕ) (m : Table) → keys i (delete_used id m) ≤ keys i m
unfolding delete_used
keys-delete_used-le i id [] = omega arith
keys-delete_used-le i id ((k, pages) ∷ m) = ground (arith, keys-delete_used-le i id m)

has_used_absent : (id : ℕ) (m : Table) → keys id m ≡ 0 → has_used id m ≡ false
unfolding has_used
has_used_absent id [] h = refl
has_used_absent id ((k, pages) ∷ m) h = ground (arith, has_used_absent id m)

pub has_used-delete_used :
    (id : ℕ) (m : Table) → keys id m ≤ 1 → has_used id (delete_used id m) ≡ false
unfolding has_used delete_used
has_used-delete_used id [] h = refl
has_used-delete_used id ((k, pages) ∷ m) h =
    ground (arith, has_used_absent id m, has_used-delete_used id m)
