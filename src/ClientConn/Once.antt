-- ===== src/ClientConn/Once.antt =====
-- conn.go: each request gets exactly one result.
use sftp_go.Base.{
  ℕ, ◌+◌, ◌≡◌, ◌≢◌, refl, sym, ◌∙◌, arith, true, Bool-cases, inl, inr, none, Option-cases, List, [],
  ◌∷◌, All, ◌==◌, if◌then◌else◌,
}
use sftp_go.Wire.{Bytes, Read, ok, fail, panic, unmarshal_uint32_safe}
use sftp_go.Server.Errors.{GoError}
use sftp_go.ClientConn.{
  Outcome, failed, Target, caller, ClientConn, new_client_conn, find_channel, set_channel,
  delete_channel, put_channel, get_channel, broadcast_err, dispatch_request, deliver_to,
  send_failed, receive, Happening, dispatches, send_fails, receives, disconnects, happen,
  happen_all, connection_lost,
}
use sftp_go.ClientConn.Table.{
  got, waiting, asked, sids, Distinct, Apart, got-deliver, waiting-set_channel,
  waiting-delete_channel, delete_unknown, find-set_channel, find-delete_channel, broadcast_lem,
}

-- What is counted stays the same, a closed connection has nobody waiting, and the ids to come are
-- not in flight.
record IsFair (ids : List ℕ) (total : ℕ → ℕ) (c : ClientConn) : Type 0 where
  counted : (ch : ℕ) → got ch c.sent_results + waiting ch c.inflight ≡ total ch
  none_waits : c.is_closed ≡ true → (ch : ℕ) → waiting ch c.inflight ≡ 0
  apart : Apart ids c.inflight

Apart-map :
    (ids : List ℕ) (xs ys : List (ℕ × Target))
    → ((i : ℕ) → find_channel i xs ≡ none → find_channel i ys ≡ none)
    → Apart ids xs
    → Apart ids ys
Apart-map [] xs ys keep a = tt
Apart-map (i ∷ ids) xs ys keep (e, a) = (keep i e, Apart-map ids xs ys keep a)

Apart-set_channel :
    (ids : List ℕ) (sid : ℕ) (t : Target) (xs : List (ℕ × Target))
    → All (λ i. sid ≢ i) ids
    → Apart ids xs
    → Apart ids (set_channel sid t xs)
Apart-set_channel [] sid t xs d a = tt
Apart-set_channel (i ∷ ids) sid t xs (ne, d) (e, a) =
    (find-set_channel i sid t xs (λ q. ne (sym q)) ∙ e, Apart-set_channel ids sid t xs d a)

module _ (ids : List ℕ) (total : ℕ → ℕ) where
  broadcast_err-IsFair :
      (e : GoError) (c : ClientConn) → IsFair ids total c → IsFair ids total (broadcast_err e c)
  unfolding broadcast_err
  broadcast_err-IsFair e c v = record {
    counted = λ ch. omega (
      arith,
      (broadcast_lem ch 0 c.inflight c.sent_results).0,
      (broadcast_lem ch 0 c.inflight c.sent_results).1,
      v.counted ch,
    );
    none_waits = λ h ch. (broadcast_lem ch 0 c.inflight c.sent_results).0;
    apart =
        Apart-map ids c.inflight _ (λ i. (broadcast_lem 0 i c.inflight c.sent_results).2) v.apart;
  }

  deliver_to-IsFair :
      (sid : ℕ) (r : Outcome) (otherwise c : ClientConn)
      → IsFair ids total c
      → (find_channel sid c.inflight ≡ none → IsFair ids total otherwise)
      → IsFair ids total (deliver_to sid r otherwise c)
  unfolding deliver_to get_channel
  deliver_to-IsFair sid r otherwise c v other = elim (Option-cases (find_channel sid c.inflight)) [
    | inl e ↦ simp (deliver_to, get_channel, e) (other e)
    | inr (t, e) ↦
        simp (deliver_to, get_channel, e)
          (record {
            counted = λ ch. omega (
              arith,
              v.counted ch,
              got-deliver ch t r c.sent_results,
              waiting-delete_channel ch sid t c.inflight e,
            );
            none_waits = λ h ch.
                omega (arith, v.none_waits h ch, waiting-delete_channel ch sid t c.inflight e);
            apart = Apart-map ids c.inflight _ (λ i. find-delete_channel i sid c.inflight) v.apart;
          })
  ]

  -- Taking a channel that is not there.
  get_unknown :
      (sid : ℕ) (c : ClientConn)
      → find_channel sid c.inflight ≡ none
      → IsFair ids total c
      → IsFair ids total (get_channel sid c).1
  unfolding get_channel
  get_unknown sid c e v =
      let same : delete_channel sid c.inflight ≡ c.inflight = delete_unknown sid c.inflight e in
      record {
        counted = λ ch. rw same (v.counted ch);
        none_waits = λ h ch. rw same (v.none_waits h ch);
        apart = rw same v.apart;
      }

  receive-IsFair :
      (typ : ℕ) (content : Bytes) (c : ClientConn)
      → IsFair ids total c
      → IsFair ids total (receive typ content c)
  unfolding receive
  receive-IsFair typ content c v = parsed (unmarshal_uint32_safe content) refl
    where
      parsed :
          (r : Read ℕ)
          → unmarshal_uint32_safe content ≡ r
          → IsFair ids total (receive typ content c)
      parsed (fail e) h = simp (receive, h) (broadcast_err-IsFair _ c v)
      parsed panic h = simp (receive, h) v
      parsed (ok sid rest) h =
          simp (receive, h)
            (deliver_to-IsFair sid _ _ c v λ e. broadcast_err-IsFair _ _ (get_unknown sid c e v))

  send_failed-IsFair :
      (sid : ℕ) (e : GoError) (c : ClientConn)
      → IsFair ids total c
      → IsFair ids total (send_failed sid e c)
  unfolding send_failed
  send_failed-IsFair sid e c v = deliver_to-IsFair sid _ _ c v λ h. get_unknown sid c h v

dispatch_request-IsFair :
    (ids : List ℕ) (total : ℕ → ℕ) (ch sid : ℕ) (c : ClientConn)
    → All (λ i. sid ≢ i) ids
    → IsFair (sid ∷ ids) total c
    → IsFair ids (λ k. total k + (if ch == k then 1 else 0)) (dispatch_request ch sid c)
unfolding dispatch_request put_channel
dispatch_request-IsFair ids total ch sid c d v = elim (Bool-cases c.is_closed) [
  | inl h ↦
      simp (dispatch_request, put_channel, h)
        (record {
          counted = λ k. omega (
            arith,
            v.counted k,
            got-deliver k (caller ch) (failed connection_lost) c.sent_results,
          );
          none_waits = λ _. v.none_waits h;
          apart = v.apart.1;
        })
  | inr h ↦
      simp (dispatch_request, put_channel, h)
        (record {
          counted = λ k.
              omega
                (arith, v.counted k, waiting-set_channel k sid (caller ch) c.inflight v.apart.0);
          none_waits = λ f k. absurd (cc h);
          apart = Apart-set_channel ids sid (caller ch) c.inflight d v.apart.1;
        })
]

-- A closed connection receives no more.
unless_closed-IsFair :
    (ids : List ℕ) (total : ℕ → ℕ) (c c' : ClientConn)
    → IsFair ids total c
    → IsFair ids total c'
    → IsFair ids total (if c.is_closed then c else c')
unless_closed-IsFair ids total c c' v v' = elim (Bool-cases c.is_closed) [
  | inl h ↦ simp h v
  | inr h ↦ simp h v'
]

happen_all-IsFair :
    (es : List Happening) (total : ℕ → ℕ) (c : ClientConn)
    → Distinct (sids es)
    → IsFair (sids es) total c
    → IsFair [] (λ k. total k + asked k es) (happen_all es c)
unfolding happen_all happen
happen_all-IsFair [] total c d v = record {
  counted = λ k. omega (arith, v.counted k);
  none_waits = v.none_waits;
  apart = tt;
}
happen_all-IsFair (dispatches ch sid ∷ es) total c d v =
    let w = happen_all-IsFair es _ _ d.1 (dispatch_request-IsFair (sids es) total ch sid c d.0 v) in
    record { counted = λ k. omega (arith, w.counted k); none_waits = w.none_waits; apart = tt }
happen_all-IsFair (send_fails sid e ∷ es) total c d v =
    happen_all-IsFair es total _ d (send_failed-IsFair (sids es) total sid e c v)
happen_all-IsFair (receives typ content ∷ es) total c d v =
    happen_all-IsFair es total _ d
      (unless_closed-IsFair (sids es) total c _ v (receive-IsFair (sids es) total typ content c v))
happen_all-IsFair (disconnects e ∷ es) total c d v =
    happen_all-IsFair es total _ d
      (unless_closed-IsFair (sids es) total c _ v (broadcast_err-IsFair (sids es) total e c v))

Apart-nil : (ids : List ℕ) → Apart ids []
unfolding find_channel
Apart-nil [] = tt
Apart-nil (i ∷ ids) = (refl, Apart-nil ids)

new_client_conn-IsFair : (ids : List ℕ) → IsFair ids (λ k. 0) new_client_conn
unfolding new_client_conn
new_client_conn-IsFair ids = record {
  counted = λ ch. omega arith;
  none_waits = λ h ch. refl;
  apart = Apart-nil ids;
}

-- In every order of dispatching, failed sending, receiving and disconnecting, whatever the server
-- sends: each channel was sent as many results as requests were dispatched with it, less those that
-- still wait in flight; for requests with different ids.
pub happen_all-got :
    (es : List Happening) (ch : ℕ)
    → Distinct (sids es)
    → got ch (happen_all es new_client_conn).sent_results
        + waiting ch (happen_all es new_client_conn).inflight
      ≡ asked ch es
happen_all-got es ch d =
    let v = happen_all-IsFair es (λ k. 0) new_client_conn d (new_client_conn-IsFair (sids es)) in
    omega (arith, v.counted ch)

-- Once the connection is closed, every request that was dispatched, before or after, has had its one
-- result, so no caller waits for ever; for requests with different ids.
pub happen_all-got_closed :
    (es : List Happening) (ch : ℕ)
    → Distinct (sids es)
    → (happen_all es new_client_conn).is_closed ≡ true
    → got ch (happen_all es new_client_conn).sent_results ≡ asked ch es
happen_all-got_closed es ch d h =
    let v = happen_all-IsFair es (λ k. 0) new_client_conn d (new_client_conn-IsFair (sids es)) in
    omega (arith, v.counted ch, v.none_waits h ch)
