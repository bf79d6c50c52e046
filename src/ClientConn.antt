-- ===== src/ClientConn.antt =====
-- conn.go: the client's side of a connection. Requests in flight wait on channels, named by numbers
-- here; each method holds the mutex for its whole body and is one step. What a channel was sent stands
-- in a log, in order.
pub mod Table
pub mod Once
use sftp_go.Base.{
  ℕ, zero, suc, ◌+◌, ◌%◌, ◌^◌, Bool, true, false, Option, none, some, List, [], ◌∷◌, ◌++◌, ◌==◌,
  if◌then◌else◌,
}
use sftp_go.Wire.{Bytes, Read, ok, fail, panic, unmarshal_uint32_safe}
use sftp_go.Server.Errors.{GoError, fx}
use sftp_go.Server.Errors

-- `result`: a packet's type and bytes, or an error.
pub data Outcome : Type 0 where
  packet : ℕ → Bytes → Outcome
  failed : GoError → Outcome

-- A channel in the map: a caller's, or the one that `broadcastErr` puts in its place.
pub data Target : Type 0 where
  caller : ℕ → Target
  hijacked : Target

-- `clientConn`: the map `inflight`, whether `closed` is closed, and `err`.
pub record ClientConn : Type 0 where
  pub inflight : List (ℕ × Target)
  pub is_closed : Bool
  pub failure : Option GoError
  pub sent_results : List (ℕ × Outcome)

unfoldable pub new_client_conn : ClientConn
new_client_conn = record { inflight = []; is_closed = false; failure = none; sent_results = [] }

-- The map, whose keys are different.
unfoldable pub find_channel : ℕ → List (ℕ × Target) → Option Target
find_channel sid [] = none
find_channel sid ((k, t) ∷ rest) = if k == sid then some t else find_channel sid rest

unfoldable pub set_channel : ℕ → Target → List (ℕ × Target) → List (ℕ × Target)
set_channel sid t [] = (sid, t) ∷ []
set_channel sid t ((k, t') ∷ rest) =
    let others = set_channel sid t rest in if k == sid then (sid, t) ∷ rest else (k, t') ∷ others

unfoldable pub delete_channel : ℕ → List (ℕ × Target) → List (ℕ × Target)
delete_channel sid [] = []
delete_channel sid ((k, t) ∷ rest) =
    let others = delete_channel sid rest in if k == sid then rest else (k, t) ∷ others

-- `ErrSSHFxConnectionLost`.
abbrev pub connection_lost : GoError
connection_lost = fx 7

-- `fmt.Errorf("sid not found: %d", sid)`.
abbrev pub sid_not_found : GoError
sid_not_found = Errors.other 5

-- `ch <- result`; nobody reads the channel that `broadcastErr` made.
unfoldable pub deliver : Target → Outcome → List (ℕ × Outcome) → List (ℕ × Outcome)
deliver (caller ch) r log = log ++ (ch, r) ∷ []
deliver hijacked r log = log

-- `putChannel`: whether the request may be sent.
unfoldable pub put_channel : ℕ → ℕ → ClientConn → Bool × ClientConn
put_channel ch sid c =
    if c.is_closed
    then (
      false,
      record c { sent_results = deliver (caller ch) (failed connection_lost) c.sent_results },
    )
    else (true, record c { inflight = set_channel sid (caller ch) c.inflight })

-- `getChannel`.
unfoldable pub get_channel : ℕ → ClientConn → Option Target × ClientConn
get_channel sid c =
    (find_channel sid c.inflight, record c { inflight = delete_channel sid c.inflight })

-- The loop of `broadcastErr`: each channel is sent the error and replaced.
unfoldable pub broadcast_all :
    List (ℕ × Target) → List (ℕ × Outcome) → List (ℕ × Target) × List (ℕ × Outcome)
broadcast_all [] log = ([], log)
broadcast_all ((sid, t) ∷ rest) log =
    let (others, log') = broadcast_all rest (deliver t (failed connection_lost) log) in
    ((sid, hijacked) ∷ others, log')

unfoldable pub broadcast_err : GoError → ClientConn → ClientConn
broadcast_err e c =
    let (inflight', log) = broadcast_all c.inflight c.sent_results in
    record { inflight = inflight'; is_closed = true; failure = some e; sent_results = log }

-- `dispatchRequest` up to the sending.
unfoldable pub dispatch_request : ℕ → ℕ → ClientConn → ClientConn
dispatch_request ch sid c = (put_channel ch sid c).1

-- A result for the channel of an id; what happens where there is none is the second argument.
unfoldable pub deliver_to : ℕ → Outcome → ClientConn → ClientConn → ClientConn
deliver_to sid r otherwise c =
    let (found, c') = get_channel sid c in
    elim found [
      | none ↦ otherwise
      | some t ↦ record c' { sent_results = deliver t r c'.sent_results }
    ]

-- `dispatchRequest` when the sending failed.
unfoldable pub send_failed : ℕ → GoError → ClientConn → ClientConn
send_failed sid e c = deliver_to sid (failed e) (get_channel sid c).1 c

-- A round of `recv`, and `broadcastErr` where it returns an error, as in `NewClientPipe`. (The decoder
-- of the id does not panic.)
unfoldable pub receive : ℕ → Bytes → ClientConn → ClientConn
receive typ content c = elim (unmarshal_uint32_safe content) [
  | fail e ↦ broadcast_err (Errors.wire e) c
  | panic ↦ c
  | ok sid rest ↦
      deliver_to sid (packet typ content) (broadcast_err sid_not_found (get_channel sid c).1) c
]

-- What happens to a connection: a request dispatched, its sending failed, a packet received, or an
-- error of the connection. The loop of `recv` has ended when the connection is closed.
pub data Happening : Type 0 where
  dispatches : ℕ → ℕ → Happening
  send_fails : ℕ → GoError → Happening
  receives : ℕ → Bytes → Happening
  disconnects : GoError → Happening

unfoldable pub happen : Happening → ClientConn → ClientConn
happen (dispatches ch sid) c = dispatch_request ch sid c
happen (send_fails sid e) c = send_failed sid e c
happen (receives typ content) c = if c.is_closed then c else receive typ content c
happen (disconnects e) c = if c.is_closed then c else broadcast_err e c

unfoldable pub happen_all : List Happening → ClientConn → ClientConn
happen_all [] c = c
happen_all (e ∷ es) c = happen_all es (happen e c)

-- client.go, `nextID`: the ids of the next requests.
unfoldable pub next_id : ℕ → ℕ
next_id nextid = (nextid + 1) % 2 ^ 32

unfoldable pub take_ids : ℕ → ℕ → List ℕ
take_ids zero nextid = []
take_ids (suc n) nextid = next_id nextid ∷ take_ids n (next_id nextid)
