-- ===== src/PacketManager/Dispatch/Waits.antt =====
-- A close waits for the reads and writes before it, and the dispatcher never gets stuck.
use sftp_go.Base.{ℕ, suc, ◌+◌, ◌≡◌, refl, ap, arith, List, [], ◌∷◌, length, length-append}
use sftp_go.Packet.{Packet}
use sftp_go.PacketManager.{Ordered}
use sftp_go.PacketManager.Sorting.{Consecutive}
use sftp_go.PacketManager.Dispatch.{
  Dispatcher, waiting, Step, takes, queues, commands, starts, answers, finishes, Steps, stays, goes,
}
use sftp_go.PacketManager.Dispatch.After.{
  one_of, AfterClose, Past, Before, Past-suc, Before-new, Before-none, after_append, after_start,
  after_remove, after_taken,
}

-- After `n` packets were taken.
record Valid (n : ℕ) (s : Dispatcher) : Type 0 where
  ordered : Consecutive n s.pending
  counted : s.working ≡ one_of s.held + length s.queue + length s.serving + one_of s.command
  held_past : Past n s.held
  command_past : Past n s.command
  in_order : Before s.command s.held
  held_queue : AfterClose s.held s.queue
  held_serving : AfterClose s.held s.serving
  command_queue : AfterClose s.command s.queue
  command_serving : AfterClose s.command s.serving

step-Valid : (n : ℕ) (s t : Dispatcher) → Valid n s → Step s t → (m : ℕ) × Valid m t
step-Valid n s t v (takes p ps e h k) =
    let o : Consecutive n (p ∷ ps) = rw e at v.ordered in
    (
      suc n,
      record {
        ordered = o.1;
        counted = omega (arith, v.counted, ap one_of h);
        held_past = omega (arith, o.0);
        command_past = Past-suc n s.command v.command_past;
        in_order = Before-new n s.command p v.command_past o.0;
        held_queue = after_taken p s.queue (λ c. omega (arith, v.counted, k c));
        held_serving = after_taken p s.serving (λ c. omega (arith, v.counted, k c));
        command_queue = v.command_queue;
        command_serving = v.command_serving;
      },
    )
step-Valid n s t v (queues p h r room) = (
  n,
  record {
    ordered = v.ordered;
    counted = omega (arith, v.counted, ap one_of h, length-append s.queue (p ∷ []));
    held_past = tt;
    command_past = v.command_past;
    in_order = Before-none s.command;
    held_queue = tt;
    held_serving = tt;
    command_queue = after_append s.command s.queue p v.command_queue (rw h at v.in_order);
    command_serving = v.command_serving;
  },
)
step-Valid n s t v (commands p h r c) = (
  n,
  record {
    ordered = v.ordered;
    counted = omega (arith, v.counted, ap one_of h, ap one_of c);
    held_past = tt;
    command_past = rw h at v.held_past;
    in_order = tt;
    held_queue = tt;
    held_serving = tt;
    command_queue = rw h at v.held_queue;
    command_serving = rw h at v.held_serving;
  },
)
step-Valid n s t v (starts p ps e room) =
    let held = after_start s.held p ps s.serving (rw e at v.held_queue) v.held_serving in
    let command =
      after_start s.command p ps s.serving (rw e at v.command_queue) v.command_serving in
    (
      n,
      record {
        ordered = v.ordered;
        counted = omega (arith, v.counted, ap length e, length-append s.serving (p ∷ []));
        held_past = v.held_past;
        command_past = v.command_past;
        in_order = v.in_order;
        held_queue = held.0;
        held_serving = held.1;
        command_queue = command.0;
        command_serving = command.1;
      },
    )
step-Valid n s t v (answers p xs ys e) = (
  n,
  record {
    ordered = v.ordered;
    counted = omega (arith, v.counted, ap length e, length-append xs (p ∷ ys), length-append xs ys);
    held_past = v.held_past;
    command_past = v.command_past;
    in_order = v.in_order;
    held_queue = v.held_queue;
    held_serving = after_remove s.held xs p ys (rw e at v.held_serving);
    command_queue = v.command_queue;
    command_serving = after_remove s.command xs p ys (rw e at v.command_serving);
  },
)
step-Valid n s t v (finishes p c) = (
  n,
  record {
    ordered = v.ordered;
    counted = omega (arith, v.counted, ap one_of c);
    held_past = v.held_past;
    command_past = tt;
    in_order = tt;
    held_queue = v.held_queue;
    held_serving = v.held_serving;
    command_queue = tt;
    command_serving = tt;
  },
)

Steps-Valid : (n : ℕ) (s t : Dispatcher) → Valid n s → Steps s t → (m : ℕ) × Valid m t
Steps-Valid n s t v stays = (n, v)
Steps-Valid n s t v (goes before last) =
    let (m, w) = Steps-Valid n s _ v before in step-Valid m _ t w last

reached-Valid :
    (ps : List (Ordered Packet)) (t : Dispatcher)
    → Consecutive 0 ps
    → Steps (waiting ps) t
    → (m : ℕ) × Valid m t
reached-Valid ps t c steps =
    Steps-Valid 0 (waiting ps) t
      (record {
        ordered = c;
        counted = refl;
        held_past = tt;
        command_past = tt;
        in_order = tt;
        held_queue = tt;
        held_serving = tt;
        command_queue = tt;
        command_serving = tt;
      })
      steps

pub working_counts :
    (ps : List (Ordered Packet)) (t : Dispatcher)
    → Consecutive 0 ps
    → Steps (waiting ps) t
    → t.working ≡ one_of t.held + length t.queue + length t.serving + one_of t.command
working_counts ps t c steps = (reached-Valid ps t c steps).1.counted

-- From packets numbered 1, 2, …, in every order of steps: while the command worker serves a close,
-- or the dispatcher has registered one, each read and write that waits or is being served came
-- after it; so all those before it are answered.
pub close_waits :
    (ps : List (Ordered Packet)) (t : Dispatcher)
    → Consecutive 0 ps
    → Steps (waiting ps) t
    → (AfterClose t.command t.queue × AfterClose t.command t.serving)
      × (AfterClose t.held t.queue × AfterClose t.held t.serving)
close_waits ps t c steps =
    let (n, v) = reached-Valid ps t c steps in
    ((v.command_queue, v.command_serving), (v.held_queue, v.held_serving))
