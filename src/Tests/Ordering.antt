-- ===== src/Tests/Ordering.antt =====
-- The packet manager on three requests whose responses come in another order.
use sftp_go.Base.{ℕ, ◌+◌, ◌≤◌, ◌<◌, ◌≡◌, refl, arith, none, List, [], ◌∷◌, ◌++◌, length}
use sftp_go.PacketManager.{
  Ordered, Event, requested, responded, new_manager, run, controller, maybe_send_packets,
  send_ready, sort, insert, order_all,
}
use sftp_go.PacketManager.Sorting.{Consecutive, times}
use sftp_go.PacketManager.Order.{InOrder, responses}
use sftp_go.PacketManager.Delivery.{
  Feeds, run-new_manager-InOrder, run-new_manager-perm, run_complete, order_all-Consecutive,
}
use mathlib.Core.List.{Perm}

abbrev numbered : ℕ → Ordered ℕ
numbered i = record { content = 100 + i; orderid = i }

-- The response to 3 comes before the request 3 is seen, and that to 1 last.
abbrev shuffled : List (Event ℕ ℕ)
shuffled =
    requested (numbered 1)
    ∷ requested (numbered 2)
    ∷ responded (numbered 3)
    ∷ responded (numbered 2)
    ∷ requested (numbered 3)
    ∷ responded (numbered 1)
    ∷ []

shuffled_sent : (run (new_manager none) shuffled).sent ≡ numbered 1 ∷ numbered 2 ∷ numbered 3 ∷ []
unfolding run new_manager controller maybe_send_packets send_ready sort insert
shuffled_sent = refl

shuffled_once : (i : ℕ) → times i (responses shuffled) ≤ 1
shuffled_once i = ground arith

shuffled-Feeds : Feeds shuffled
shuffled-Feeds = record { numbered = omega arith; positive = omega arith; once = shuffled_once }

run-new_manager-InOrder_example : InOrder 3 (run (new_manager none) shuffled)
run-new_manager-InOrder_example = run-new_manager-InOrder none shuffled shuffled-Feeds

run-new_manager-perm_example :
    Perm
      ((run (new_manager none) shuffled).sent ++ (run (new_manager none) shuffled).outgoing)
      (numbered 3 ∷ numbered 2 ∷ numbered 1 ∷ [])
run-new_manager-perm_example = run-new_manager-perm none shuffled

shuffled_each : (i : ℕ) → 0 < i → i ≤ 3 → times i (responses shuffled) ≡ 1
shuffled_each i h k = ground arith

shuffled_foreign : (i : ℕ) → 3 < i → times i (responses shuffled) ≡ 0
shuffled_foreign i h = ground arith

run_complete_example :
    Consecutive 0 (run (new_manager none) shuffled).sent
    × (length (run (new_manager none) shuffled).sent ≡ 3)
    × ((run (new_manager none) shuffled).incoming ≡ [])
    × ((run (new_manager none) shuffled).outgoing ≡ [])
run_complete_example =
    run_complete none shuffled shuffled-Feeds
      (record { each = shuffled_each; foreign = shuffled_foreign })

order_all-Consecutive_example : Consecutive {A = ℕ} 0 (order_all {A = ℕ} 0 (7 ∷ 8 ∷ 9 ∷ []))
order_all-Consecutive_example = order_all-Consecutive {A = ℕ} 0 (7 ∷ 8 ∷ 9 ∷ []) (omega arith)
