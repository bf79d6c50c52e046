-- ===== src/PacketManager/Order.antt =====
-- The controller's invariant: responses leave in the order of their requests.
use sftp_go.Base.{
  ℕ, suc, ◌+◌, ◌≤◌, ◌<◌, ◌≡◌, ◌≢◌, refl, ap, ◌∙◌, arith, Option, List, [], ◌∷◌, ◌++◌, append_assoc,
  length, length-append, All, ◌==◌, Bool-cases, inl, inr,
}
use sftp_go.Allocator.{Allocator}
use sftp_go.PacketManager.{
  Ordered, Manager, Event, requested, responded, sort, release, send_ready, maybe_send_packets,
  controller,
}
use sftp_go.PacketManager.Sorting.{
  times, times-append, times-sort, Above, Above-mono, Consecutive, sort-Above, sort-eq_self,
  Consecutive-Above,
}

module _ {A : Type 0} where
  pub Consecutive-append_one :
      (k : ℕ) (xs : List (Ordered A)) (x : Ordered A)
      → Consecutive k xs
      → x.orderid ≡ suc (k + length xs)
      → Consecutive k (xs ++ x ∷ [])
  Consecutive-append_one k [] x c h = (omega arith, tt)
  Consecutive-append_one k (y ∷ ys) x c h =
      (c.0, Consecutive-append_one (suc k) ys x c.1 (omega arith))

  All-Above :
      (k : ℕ) (xs : List (Ordered A)) (p : Ordered A)
      → Above k xs
      → k < p.orderid
      → All (λ x. k < x.orderid) (xs ++ p ∷ [])
  All-Above k [] p a h = (h, tt)
  All-Above k (x ∷ xs) p a h =
      (a.0, All-Above k xs p (Above-mono k x.orderid xs (omega arith) a.1) h)

  -- Every order id of the run is carried once.
  pub times_consecutive :
      (i k : ℕ) (xs : List (Ordered A))
      → Consecutive k xs
      → k < i
      → i ≤ k + length xs
      → 1 ≤ times i xs
  times_consecutive i k [] c l h = absurd (omega arith)
  times_consecutive i k (x ∷ xs) c l h = ground (arith, times_consecutive i (suc k) xs c.1)

  pub times_consecutive_above :
      (i k : ℕ) (xs : List (Ordered A)) → Consecutive k xs → k + length xs < i → times i xs ≡ 0
  times_consecutive_above i k [] c h = refl
  times_consecutive_above i k (x ∷ xs) c h =
      ground (arith, times_consecutive_above i (suc k) xs c.1)

module _ {A B : Type 0} where
  -- The requests and the responses of a history, in the order in which they came.
  abbrev pub requests : List (Event A B) → List (Ordered A)
  requests [] = []
  requests (requested p ∷ es) = p ∷ requests es
  requests (responded p ∷ es) = requests es

  abbrev pub responses : List (Event A B) → List (Ordered B)
  responses [] = []
  responses (requested p ∷ es) = responses es
  responses (responded p ∷ es) = p ∷ responses es

  -- The heads of the two queues do not belong together.
  abbrev pub Blocked : List (Ordered A) → List (Ordered B) → Type 0
  Blocked [] os = Unit {0}
  Blocked (i ∷ is) [] = Unit {0}
  Blocked (i ∷ is) (o ∷ os) = i.orderid ≢ o.orderid

  -- After `n` requests: the responses sent have the order ids 1, 2, …; the requests that wait are
  -- the next ones, up to `n`; the responses that wait come later, in order, and the first of them
  -- is not the next one due.
  pub record InOrder (n : ℕ) (s : Manager A B) : Type 0 where
    pub sent_in_order : Consecutive 0 s.sent
    pub waiting : Consecutive (length s.sent) s.incoming
    pub arrived : length s.incoming + length s.sent ≡ n
    pub queued : Above (length s.sent) s.outgoing
    pub blocked : Blocked s.incoming s.outgoing

  send_ready-InOrder :
      (is : List (Ordered A)) (os sent : List (Ordered B)) (alloc : Option Allocator) (n : ℕ)
      → Consecutive 0 sent
      → Consecutive (length sent) is
      → length is + length sent ≡ n
      → Above (length sent) os
      → InOrder n (send_ready is os sent alloc)
  unfolding send_ready
  send_ready-InOrder [] os sent alloc n c w a q = record {
    sent_in_order = c;
    waiting = w;
    arrived = a;
    queued = q;
    blocked = tt;
  }
  send_ready-InOrder (i ∷ is) [] sent alloc n c w a q = record {
    sent_in_order = c;
    waiting = w;
    arrived = a;
    queued = q;
    blocked = tt;
  }
  send_ready-InOrder (i ∷ is) (o ∷ os) sent alloc n c w a q =
      elim (Bool-cases (i.orderid == o.orderid)) [
        | inl same ↦
            let due : o.orderid ≡ suc (length sent) = ground arith in
            let grown : length (sent ++ o ∷ []) ≡ suc (length sent) =
              omega (arith, length-append sent (o ∷ [])) in
            rw same (
              send_ready-InOrder is os (sent ++ o ∷ []) (release alloc i.orderid) n
                (Consecutive-append_one 0 sent o c (omega arith)) (rw grown w.1) (omega arith)
                (rw grown (Above-mono (suc (length sent)) o.orderid os (omega arith) q.1)))
        | inr other ↦ rw other (record {
          sent_in_order = c;
          waiting = w;
          arrived = a;
          queued = q;
          blocked = ground arith;
        })
      ]

  pub send_ready-conserves :
      (is : List (Ordered A)) (os sent : List (Ordered B)) (alloc : Option Allocator)
      → let r : Manager A B = send_ready is os sent alloc in r.sent ++ r.outgoing ≡ sent ++ os
  unfolding send_ready
  send_ready-conserves [] os sent alloc = refl
  send_ready-conserves (i ∷ is) [] sent alloc = refl
  send_ready-conserves (i ∷ is) (o ∷ os) sent alloc = elim (Bool-cases (i.orderid == o.orderid)) [
    | inl same ↦ rw same (
        send_ready-conserves is os (sent ++ o ∷ []) (release alloc i.orderid)
        ∙ append_assoc sent (o ∷ []) os)
    | inr other ↦ rw other
  ]

  -- How often a response with an order id has come to the controller so far.
  abbrev pub answers : ℕ → Manager A B → ℕ
  answers i s = times i s.sent + times i s.outgoing

  pub controller-answers :
      (i : ℕ) (s : Manager A B) (e : Event A B)
      → answers i (controller s e) ≡ answers i s + times i (responses (e ∷ []))
  unfolding controller maybe_send_packets
  controller-answers i s (requested p) = omega (
    arith,
    ap (times i) (send_ready-conserves (sort (s.incoming ++ p ∷ [])) s.outgoing s.sent s.alloc),
    times-append i s.sent s.outgoing,
    times-append i (controller s (requested p)).sent (controller s (requested p)).outgoing,
  )
  controller-answers i s (responded p) = omega (
    arith,
    ap (times i) (send_ready-conserves s.incoming (sort (s.outgoing ++ p ∷ [])) s.sent s.alloc),
    times-append i s.sent (sort (s.outgoing ++ p ∷ [])),
    times-sort i (s.outgoing ++ p ∷ []),
    times-append i s.outgoing (p ∷ []),
    times-append i (controller s (responded p)).sent (controller s (responded p)).outgoing,
  )

  pub requested-InOrder :
      (n : ℕ) (s : Manager A B) (p : Ordered A)
      → InOrder n s
      → p.orderid ≡ suc n
      → InOrder (suc n) (controller s (requested p))
  unfolding controller maybe_send_packets
  requested-InOrder n s p v h =
      let all : Consecutive (length s.sent) (s.incoming ++ p ∷ []) =
        Consecutive-append_one (length s.sent) s.incoming p v.waiting (omega (arith, v.arrived)) in
      rw (sort-eq_self (length s.sent) _ (Consecutive-Above _ _ all)) (
        send_ready-InOrder (s.incoming ++ p ∷ []) s.outgoing s.sent s.alloc (suc n) v.sent_in_order
          all (omega (arith, v.arrived, length-append s.incoming (p ∷ []))) v.queued)

  -- An order id from 1 on that no response has carried yet lies above those sent.
  above_sent :
      (n : ℕ) (s : Manager A B) (i : ℕ) → InOrder n s → 0 < i → answers i s ≡ 0 → length s.sent < i
  above_sent n s i v h a = ground (arith, times_consecutive i 0 s.sent v.sent_in_order h)

  pub responded-InOrder :
      (n : ℕ) (s : Manager A B) (p : Ordered B)
      → InOrder n s
      → 0 < p.orderid
      → ((i : ℕ) → answers i s + times i (p ∷ []) ≤ 1)
      → InOrder n (controller s (responded p))
  unfolding controller maybe_send_packets
  responded-InOrder n s p v h once =
      let due : length s.sent < p.orderid =
        above_sent n s p.orderid v h (ground (arith, once p.orderid)) in
      send_ready-InOrder s.incoming (sort (s.outgoing ++ p ∷ [])) s.sent s.alloc n v.sent_in_order
        v.waiting v.arrived
        (sort-Above (length s.sent) (s.outgoing ++ p ∷ [])
          (λ i. omega (arith, once i, times-append i s.outgoing (p ∷ [])))
          (All-Above (length s.sent) s.outgoing p v.queued due))
