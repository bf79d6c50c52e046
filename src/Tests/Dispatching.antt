-- ===== src/Tests/Dispatching.antt =====
-- A write and then a close of its file, handed to the workers.
use sftp_go.Base.{refl, arith, List, [], ◌∷◌, some, ◌⊎◌, ◌<◌, codes}
use sftp_go.Packet.{Packet, close, write}
use sftp_go.PacketManager.{Ordered}
use sftp_go.PacketManager.Dispatch.{
  is_read_write, is_close, Dispatcher, waiting, Step, takes, queues, starts, answers, commands,
  Steps, stays, goes,
}
use sftp_go.PacketManager.Dispatch.After.{AfterClose}
use sftp_go.PacketManager.Dispatch.Waits.{close_waits}
use sftp_go.PacketManager.Dispatch.Progress.{Idle, left, dispatch_progress}

abbrev writing : Ordered Packet
writing = record { content = write 1 1 0 (codes "1") (65 ∷ []); orderid = 1 }

abbrev closing : Ordered Packet
closing = record { content = close 2 (codes "1"); orderid = 2 }

abbrev again : Ordered Packet
again = record { content = write 3 1 1 (codes "2") (66 ∷ []); orderid = 3 }

abbrev session : List (Ordered Packet)
session = writing ∷ closing ∷ again ∷ []

-- The first write is answered, the close is served, and the second write waits.
abbrev served : Dispatcher
served = record (waiting session) {
  pending = [];
  queue = again ∷ [];
  command = some closing;
  working = 2;
}

serving_close : Steps (waiting session) served
unfolding is_close is_read_write
serving_close =
    let rest : List (Ordered Packet) = closing ∷ again ∷ [] in
    let written =
      goes (goes stays (takes writing rest refl refl (λ e. absurd (cc e))))
        (queues writing refl refl (omega arith)) in
    let answered =
      goes (goes written (starts writing [] refl (omega arith))) (answers writing [] [] refl) in
    let closed =
      goes (goes answered (takes closing (again ∷ []) refl refl (λ e. refl)))
        (commands closing refl refl refl) in
    goes (goes closed (takes again [] refl refl (λ e. absurd (cc e))))
      (queues again refl refl (omega arith))

close_waits_example :
    (AfterClose served.command served.queue × AfterClose served.command served.serving)
    × (AfterClose served.held served.queue × AfterClose served.held served.serving)
close_waits_example = close_waits session served (refl, (refl, (refl, tt))) serving_close

dispatch_progress_example :
    (Idle served ⊎ ((t : Dispatcher) × Step served t))
    × ((t : Dispatcher) → Step served t → left t < left served)
dispatch_progress_example =
    dispatch_progress session served (refl, (refl, (refl, tt))) serving_close
