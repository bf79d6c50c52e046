-- ===== src/ClientConn/Table.antt =====
-- conn.go: the map of requests in flight and the results sent, counted.
use sftp_go.Base.{
  ℕ, zero, suc, ◌+◌, ◌%◌, ◌^◌, ◌≤◌, ◌<◌, ◌≡◌, ◌≢◌, refl, arith, none, some, List, [], ◌∷◌, ◌++◌,
  All, ◌==◌, if◌then◌else◌,
}
use sftp_go.ClientConn.{
  Outcome, failed, Target, caller, hijacked, find_channel, set_channel, delete_channel, deliver,
  broadcast_all, Happening, dispatches, next_id, take_ids, connection_lost,
}

-- How many results a channel was sent, how many requests in flight wait on it, and how many were
-- dispatched with it.
abbrev pub got : ℕ → List (ℕ × Outcome) → ℕ
got ch [] = 0
got ch ((c, r) ∷ log) = (if c == ch then 1 else 0) + got ch log

abbrev pub waits_on : ℕ → Target → ℕ
waits_on ch (caller c) = if c == ch then 1 else 0
waits_on ch hijacked = 0

abbrev pub waiting : ℕ → List (ℕ × Target) → ℕ
waiting ch [] = 0
waiting ch ((sid, t) ∷ rest) = waits_on ch t + waiting ch rest

abbrev pub asked : ℕ → List Happening → ℕ
asked ch [] = 0
asked ch (dispatches c sid ∷ es) = (if c == ch then 1 else 0) + asked ch es
asked ch (e ∷ es) = asked ch es

-- The ids of the requests.
abbrev pub sids : List Happening → List ℕ
sids [] = []
sids (dispatches c sid ∷ es) = sid ∷ sids es
sids (e ∷ es) = sids es

abbrev pub Distinct : List ℕ → Type 0
Distinct [] = Unit {0}
Distinct (x ∷ xs) = All (λ y. x ≢ y) xs × Distinct xs

-- No id of a list is in flight.
abbrev pub Apart : List ℕ → List (ℕ × Target) → Type 0
Apart ids inflight = All (λ i. find_channel i inflight ≡ none) ids

got-append : (ch : ℕ) (xs ys : List (ℕ × Outcome)) → got ch (xs ++ ys) ≡ got ch xs + got ch ys
got-append ch [] ys = omega arith
got-append ch ((c, r) ∷ xs) ys = omega (arith, got-append ch xs ys)

pub got-deliver :
    (ch : ℕ) (t : Target) (r : Outcome) (log : List (ℕ × Outcome))
    → got ch (deliver t r log) ≡ got ch log + waits_on ch t
unfolding deliver
got-deliver ch (caller c) r log = omega (arith, got-append ch log ((c, r) ∷ []))
got-deliver ch hijacked r log = omega arith

pub waiting-set_channel :
    (ch sid : ℕ) (t : Target) (xs : List (ℕ × Target))
    → find_channel sid xs ≡ none
    → waiting ch (set_channel sid t xs) ≡ waiting ch xs + waits_on ch t
unfolding find_channel set_channel
waiting-set_channel ch sid t [] e = omega arith
waiting-set_channel ch sid t ((k, t') ∷ xs) e = ground (arith, waiting-set_channel ch sid t xs)

pub waiting-delete_channel :
    (ch sid : ℕ) (t : Target) (xs : List (ℕ × Target))
    → find_channel sid xs ≡ some t
    → waiting ch (delete_channel sid xs) + waits_on ch t ≡ waiting ch xs
unfolding find_channel delete_channel
waiting-delete_channel ch sid t [] e = cc
waiting-delete_channel ch sid t ((k, t') ∷ xs) e =
    ground (arith, waiting-delete_channel ch sid t xs)

pub delete_unknown :
    (sid : ℕ) (xs : List (ℕ × Target)) → find_channel sid xs ≡ none → delete_channel sid xs ≡ xs
unfolding find_channel delete_channel
delete_unknown sid [] e = refl
delete_unknown sid ((k, t) ∷ xs) e = ground (arith, delete_unknown sid xs)

pub find-set_channel :
    (i sid : ℕ) (t : Target) (xs : List (ℕ × Target))
    → i ≢ sid
    → find_channel i (set_channel sid t xs) ≡ find_channel i xs
unfolding find_channel set_channel
find-set_channel i sid t [] d = ground arith
find-set_channel i sid t ((k, t') ∷ xs) d = ground (arith, find-set_channel i sid t xs)

pub find-delete_channel :
    (i sid : ℕ) (xs : List (ℕ × Target))
    → find_channel i xs ≡ none
    → find_channel i (delete_channel sid xs) ≡ none
unfolding find_channel delete_channel
find-delete_channel i sid [] e = refl
find-delete_channel i sid ((k, t) ∷ xs) e = ground (arith, find-delete_channel i sid xs)

-- After the broadcast nobody waits, and each that did has one result more.
pub broadcast_lem :
    (ch i : ℕ) (xs : List (ℕ × Target)) (log : List (ℕ × Outcome))
    → (waiting ch (broadcast_all xs log).0 ≡ 0)
      × (got ch (broadcast_all xs log).1 ≡ got ch log + waiting ch xs)
      × (find_channel i xs ≡ none → find_channel i (broadcast_all xs log).0 ≡ none)
unfolding broadcast_all find_channel
broadcast_lem ch i [] log = (refl, omega arith, λ e. e)
broadcast_lem ch i ((sid, t) ∷ xs) log =
    let (none_left, one_more, still) =
      broadcast_lem ch i xs (deliver t (failed connection_lost) log) in
    (
      omega (arith, none_left),
      omega (arith, one_more, got-deliver ch t (failed connection_lost) log),
      λ e. ground (arith, still),
    )

ids_apart :
    (n x d id : ℕ)
    → x < 2 ^ 32
    → id ≡ (x + d) % 2 ^ 32
    → d + n < 2 ^ 32
    → All (λ y. x ≢ y) (take_ids n id)
unfolding take_ids next_id
ids_apart zero x d id small e room = tt
ids_apart (suc n) x d id small e room = (
  λ same. omega arith,
  ids_apart n x (d + 1) ((id + 1) % 2 ^ 32) small (omega arith) (omega arith),
)

-- The ids that `nextID` gives to up to 2 ^ 32 requests are different, wherever the counter stands.
pub take_ids-Distinct : (n nextid : ℕ) → n ≤ 2 ^ 32 → Distinct (take_ids n nextid)
unfolding take_ids next_id
take_ids-Distinct zero nextid h = tt
take_ids-Distinct (suc n) nextid h = (
  ids_apart n ((nextid + 1) % 2 ^ 32) 0 ((nextid + 1) % 2 ^ 32) (omega arith) (omega arith)
      (omega arith),
  take_ids-Distinct n ((nextid + 1) % 2 ^ 32) (omega arith),
)
