-- ===== src/PacketManager/Delivery.antt =====
-- What the controller has sent after a history of requests and responses.
use sftp_go.Base.{
  ℕ, suc, ◌+◌, ◌%◌, ◌^◌, ◌≤◌, ◌<◌, ◌≡◌, refl, sym, ap, arith, Option, List, [], ◌∷◌, ◌++◌,
  append_assoc, append-nil, length, All,
}
use sftp_go.Allocator.{Allocator}
use sftp_go.PacketManager.{
  Ordered, Manager, Event, requested, responded, sort, new_manager, maybe_send_packets, controller,
  run, order_all, new_order_id,
}
use sftp_go.PacketManager.Sorting.{times, Above, Consecutive, times-Above, sort-perm}
use sftp_go.PacketManager.Order.{
  InOrder, Blocked, requests, responses, answers, controller-answers, requested-InOrder,
  responded-InOrder, send_ready-conserves, times_consecutive_above,
}
use mathlib.Core.List.{Perm}
use native.Mathlib.Nat.{add-zero, zero-add}
use mathlib.Core.List.Perm

no_response_waits :
    {B : Type 0} (k : ℕ) (os : List (Ordered B))
    → Above k os
    → ((i : ℕ) → k < i → times i os ≡ 0)
    → os ≡ []
no_response_waits k [] a h = refl
no_response_waits k (o ∷ os) a h = absurd (ground (arith, h o.orderid))

module _ {A B : Type 0} where
  run-InOrder :
      (es : List (Event A B)) (n : ℕ) (s : Manager A B)
      → InOrder n s
      → Consecutive n (requests es)
      → All (λ p. 0 < p.orderid) (responses es)
      → ((i : ℕ) → answers i s + times i (responses es) ≤ 1)
      → InOrder (n + length (requests es)) (run s es)
  unfolding run
  run-InOrder [] n s v c h once = rw add-zero v
  run-InOrder (requested p ∷ es) n s v c h once =
      let shift : n + suc (length (requests es)) ≡ suc n + length (requests es) = omega arith in
      rw shift (
        run-InOrder es (suc n) (controller s (requested p)) (requested-InOrder n s p v c.0) c.1 h
          (λ i. omega (arith, once i, controller-answers i s (requested p))))
  run-InOrder (responded p ∷ es) n s v c h once =
      run-InOrder es n (controller s (responded p))
        (responded-InOrder n s p v h.0 (λ i. omega (arith, once i))) c h.1
        (λ i. omega (arith, once i, controller-answers i s (responded p)))

  new_manager-InOrder : (alloc : Option Allocator) → InOrder 0 (new_manager {A = A} {B = B} alloc)
  unfolding new_manager
  new_manager-InOrder alloc = record {
    sent_in_order = tt;
    waiting = tt;
    arrived = refl;
    queued = tt;
    blocked = tt;
  }

  -- The history starts with no packet: requests come with the order ids 1, 2, …, and responses with
  -- distinct order ids from 1 on, each before or after its request.
  pub record Feeds (es : List (Event A B)) : Type 0 where
    pub numbered : Consecutive 0 (requests es)
    pub positive : All (λ p. 0 < p.orderid) (responses es)
    pub once : (i : ℕ) → times i (responses es) ≤ 1

  module _ (alloc : Option Allocator) (es : List (Event A B)) (f : Feeds es) where
    -- After any history in which the requests carry the order ids 1, 2, … and the responses
    -- distinct ones from 1 on, in any interleaving: the responses sent carry 1, 2, … without a gap,
    -- the requests that wait are the next ones, the responses that wait come later, in order, and
    -- the first of them is not the one due.
    pub run-new_manager-InOrder : InOrder (length (requests es)) (run (new_manager alloc) es)
    unfolding new_manager
    run-new_manager-InOrder = rw zero-add at (
        run-InOrder es 0 (new_manager alloc) (new_manager-InOrder alloc) f.numbered f.positive
          (λ i. omega (arith, f.once i)))

  controller-perm :
      (s : Manager A B) (e : Event A B)
      → Perm
          ((controller s e).sent ++ (controller s e).outgoing)
          ((s.sent ++ s.outgoing) ++ responses (e ∷ []))
  unfolding controller maybe_send_packets
  controller-perm s (requested p) =
      rw (send_ready-conserves (sort (s.incoming ++ p ∷ [])) s.outgoing s.sent s.alloc, append-nil)
        (Perm.refl _)
  controller-perm s (responded p) =
      rw
        (send_ready-conserves s.incoming (sort (s.outgoing ++ p ∷ [])) s.sent s.alloc, append_assoc)
        (Perm.append (Perm.refl s.sent) (sort-perm (s.outgoing ++ p ∷ [])))

  responses-cons :
      (e : Event A B) (es : List (Event A B))
      → responses (e ∷ es) ≡ responses (e ∷ []) ++ responses es
  responses-cons (requested p) es = refl
  responses-cons (responded p) es = refl

  run-perm :
      (es : List (Event A B)) (s : Manager A B)
      → Perm ((run s es).sent ++ (run s es).outgoing) ((s.sent ++ s.outgoing) ++ responses es)
  unfolding run
  run-perm [] s = rw append-nil (Perm.refl _)
  run-perm (e ∷ es) s =
      rw
        (
          responses-cons e es,
          sym (append_assoc (s.sent ++ s.outgoing) (responses (e ∷ [])) (responses es)),
        )
        (Perm.trans (run-perm es (controller s e))
          (Perm.append (controller-perm s e) (Perm.refl _)))

  -- No response is lost, made up or sent twice: those sent and those that wait are the responses
  -- that came, for any history.
  pub run-new_manager-perm :
      (alloc : Option Allocator) (es : List (Event A B))
      → Perm
          ((run (new_manager alloc) es).sent ++ (run (new_manager alloc) es).outgoing)
          (responses es)
  unfolding new_manager
  run-new_manager-perm alloc es = run-perm es (new_manager alloc)

  run-answers :
      (i : ℕ) (es : List (Event A B)) (s : Manager A B)
      → answers i (run s es) ≡ answers i s + times i (responses es)
  unfolding run
  run-answers i [] s = omega arith
  run-answers i (requested p ∷ es) s =
      omega
        (arith, run-answers i es (controller s (requested p)), controller-answers i s (requested p))
  run-answers i (responded p ∷ es) s =
      omega
        (arith, run-answers i es (controller s (responded p)), controller-answers i s (responded p))

  no_request_waits :
      (k : ℕ) (is : List (Ordered A)) (os : List (Ordered B))
      → Consecutive k is
      → Above k os
      → Blocked is os
      → (0 < length is → 1 ≤ times (suc k) os)
      → is ≡ []
  no_request_waits k [] os c a b h = refl
  no_request_waits k (i ∷ is) [] c a b h = absurd (omega (arith, h (omega arith)))
  no_request_waits k (i ∷ is) (o ∷ os) c a b h =
      absurd (ground (arith, h (omega arith), times-Above (suc k) o.orderid os))

  -- Every request of the history has its response, and there are no other responses.
  pub record Answered (es : List (Event A B)) : Type 0 where
    pub each : (i : ℕ) → 0 < i → i ≤ length (requests es) → times i (responses es) ≡ 1
    pub foreign : (i : ℕ) → length (requests es) < i → times i (responses es) ≡ 0

  -- Once every request of the history has its response, all responses are sent, in the order of the
  -- requests, and nothing waits; for a history as in `Feeds`.
  pub run_complete :
      (alloc : Option Allocator) (es : List (Event A B))
      → Feeds es
      → Answered es
      → Consecutive 0 (run (new_manager alloc) es).sent
        × (length (run (new_manager alloc) es).sent ≡ length (requests es))
        × ((run (new_manager alloc) es).incoming ≡ [])
        × ((run (new_manager alloc) es).outgoing ≡ [])
  unfolding new_manager
  run_complete alloc es f w =
      let s : Manager A B = run (new_manager alloc) es in
      let v : InOrder (length (requests es)) s = run-new_manager-InOrder alloc es f in
      let counted = λ (i : ℕ). run-answers i es (new_manager alloc) in
      let empty : s.incoming ≡ [] =
        no_request_waits (length s.sent) s.incoming s.outgoing v.waiting v.queued v.blocked (λ h.
          omega (
            arith,
            counted (suc (length s.sent)),
            w.each (suc (length s.sent)) (omega arith) (omega (arith, v.arrived)),
            times_consecutive_above (suc (length s.sent)) 0 s.sent v.sent_in_order (omega arith),
          )) in
      let all : length s.sent ≡ length (requests es) = omega (arith, v.arrived, ap length empty) in
      (
        v.sent_in_order,
        all,
        empty,
        no_response_waits (length s.sent) s.outgoing v.queued
            (λ i h. omega (arith, counted i, w.foreign i (omega arith))),
      )

-- The order ids that `newOrderedRequest` gives to the packets of a connection are 1, 2, …, as long as
-- there are fewer than 2 ^ 32 of them.
pub order_all-Consecutive :
    {A : Type 0} (k : ℕ) (ps : List A) → k + length ps < 2 ^ 32 → Consecutive k (order_all k ps)
unfolding order_all new_order_id
order_all-Consecutive k [] h = tt
order_all-Consecutive k (p ∷ ps) h =
    let next : (k + 1) % 2 ^ 32 ≡ suc k = omega arith in
    rw next (refl, order_all-Consecutive (suc k) ps (omega arith))
