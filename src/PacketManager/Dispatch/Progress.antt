-- ===== src/PacketManager/Dispatch/Progress.antt =====
-- The dispatcher and the workers never get stuck and never run on.
use sftp_go.Base.{
  ℕ, ◌+◌, ◌*◌, ◌<◌, ◌≡◌, refl, ap, arith, ◌⊎◌, inl, inr, Bool-cases, Option, none, some, List, [],
  ◌∷◌, length, length-append,
}
use sftp_go.Packet.{Packet}
use sftp_go.PacketManager.{Ordered}
use sftp_go.PacketManager.Sorting.{Consecutive}
use sftp_go.PacketManager.Dispatch.{
  is_read_write, Dispatcher, waiting, Step, takes, queues, commands, starts, answers, finishes,
  Steps,
}
use sftp_go.PacketManager.Dispatch.After.{one_of}
use sftp_go.PacketManager.Dispatch.Waits.{working_counts}

-- Everything has been answered.
abbrev pub Idle : Dispatcher → Type 0
Idle s =
    (s.pending ≡ [])
    × (s.held ≡ none)
    × (s.queue ≡ [])
    × (s.serving ≡ [])
    × (s.command ≡ none)
    × (s.working ≡ 0)

-- The steps that the packets still have to go.
abbrev pub left : Dispatcher → ℕ
left s =
    4 * length s.pending
    + 3 * one_of s.held
    + 2 * length s.queue
    + length s.serving
    + one_of s.command

step-left : (s t : Dispatcher) → Step s t → left t < left s
step-left s t (takes p ps e h k) = omega (arith, ap length e, ap one_of h)
step-left s t (queues p h r room) = omega (arith, ap one_of h, length-append s.queue (p ∷ []))
step-left s t (commands p h r c) = omega (arith, ap one_of h, ap one_of c)
step-left s t (starts p ps e room) = omega (arith, ap length e, length-append s.serving (p ∷ []))
step-left s t (answers p xs ys e) =
    omega (arith, ap length e, length-append xs (p ∷ ys), length-append xs ys)
step-left s t (finishes p c) = omega (arith, ap one_of c)

-- In a state where the count is right, a step is possible unless all is answered.
can_step :
    (pending : List (Ordered Packet)) (held : Option (Ordered Packet))
    (queue serving : List (Ordered Packet)) (command : Option (Ordered Packet)) (working : ℕ)
    → working ≡ one_of held + length queue + length serving + one_of command
    → let s : Dispatcher = record {
      pending = pending;
      held = held;
      queue = queue;
      serving = serving;
      command = command;
      working = working;
    } in
      Idle s ⊎ ((t : Dispatcher) × Step s t)
can_step pending held queue (p ∷ ps) command working e = inr (_, answers p [] ps refl)
can_step pending held queue [] (some p) working e = inr (_, finishes p refl)
can_step pending held (p ∷ ps) [] none working e = inr (_, starts p ps refl (omega arith))
can_step pending (some p) [] [] none working e = elim (Bool-cases (is_read_write p.content)) [
  | inl r ↦ inr (_, queues p refl r (omega arith))
  | inr r ↦ inr (_, commands p refl r refl)
]
can_step [] none [] [] none working e = inl (refl, refl, refl, refl, refl, e)
can_step (p ∷ ps) none [] [] none working e = inr (_, takes p ps refl refl (λ c. e))

-- In every reachable state either each packet is answered and nothing is counted as working, or a
-- step is possible; and each step brings the packets nearer to their answers, so no run goes on
-- for ever; from packets numbered 1, 2, ….
pub dispatch_progress :
    (ps : List (Ordered Packet)) (s : Dispatcher)
    → Consecutive 0 ps
    → Steps (waiting ps) s
    → (Idle s ⊎ ((t : Dispatcher) × Step s t)) × ((t : Dispatcher) → Step s t → left t < left s)
dispatch_progress ps s c steps = (
  can_step s.pending s.held s.queue s.serving s.command s.working (working_counts ps s c steps),
  step-left s,
)
