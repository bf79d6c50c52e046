-- ===== src/PacketManager/Dispatch.antt =====
-- packet-manager.go, `workerChan`: the goroutine that hands packets to the workers, as a step
-- relation. A step is one channel operation or one `readyPacket`; the workers and the dispatcher
-- interleave in any order.
pub mod After
pub mod Waits
pub mod Progress
use sftp_go.Base.{
  ℕ, suc, ◌-◌, ◌<◌, ◌≡◌, Bool, true, false, Option, none, some, List, [], ◌∷◌, ◌++◌, length,
}
use sftp_go.Packet.{Packet, read, write, close}
use sftp_go.PacketManager.{Ordered}

-- The first case of the dispatcher's switch, and the second.
unfoldable pub is_read_write : Packet → Bool
is_read_write (read id len offset handle) = true
is_read_write (write id len offset handle content) = true
is_read_write p = false

unfoldable pub is_close : Packet → Bool
is_close (close id handle) = true
is_close p = false

-- `SftpServerWorkerCount`, the number of read/write workers and the room of `rwChan`.
abbrev pub worker_count : ℕ
worker_count = 8

-- `pktChan`; the packet that the dispatcher has registered and not yet handed over; `rwChan`; the
-- packets that read/write workers serve; the packet that the one command worker serves; and the
-- count of `working`.
pub record Dispatcher : Type 0 where
  pub pending : List (Ordered Packet)
  pub held : Option (Ordered Packet)
  pub queue : List (Ordered Packet)
  pub serving : List (Ordered Packet)
  pub command : Option (Ordered Packet)
  pub working : ℕ

-- Nothing sent yet to the workers.
abbrev pub waiting : List (Ordered Packet) → Dispatcher
waiting ps = record {
  pending = ps;
  held = none;
  queue = [];
  serving = [];
  command = none;
  working = 0;
}

pub data Step (s : Dispatcher) : Dispatcher → Type 0 where
  -- `for pkt := range pktChan` up to `incomingPacket`: a close waits until nothing is working.
  takes :
      (p : Ordered Packet) (ps : List (Ordered Packet))
      → s.pending ≡ p ∷ ps
      → s.held ≡ none
      → (is_close p.content ≡ true → s.working ≡ 0)
      → Step s (record s { pending = ps; held = some p; working = suc s.working })
  -- `rwChan <- pkt`, which blocks while the channel is full.
  queues :
      (p : Ordered Packet)
      → s.held ≡ some p
      → is_read_write p.content ≡ true
      → length s.queue < worker_count
      → Step s (record s { held = none; queue = s.queue ++ p ∷ [] })
  -- `cmdChan <- pkt`, which has no room: the command worker takes it.
  commands :
      (p : Ordered Packet)
      → s.held ≡ some p
      → is_read_write p.content ≡ false
      → s.command ≡ none
      → Step s (record s { held = none; command = some p })
  -- A read/write worker that is free takes the next packet.
  starts :
      (p : Ordered Packet) (ps : List (Ordered Packet))
      → s.queue ≡ p ∷ ps
      → length s.serving < worker_count
      → Step s (record s { queue = ps; serving = s.serving ++ p ∷ [] })
  -- `readyPacket` by a read/write worker, in any order.
  answers :
      (p : Ordered Packet) (before after : List (Ordered Packet))
      → s.serving ≡ before ++ p ∷ after
      → Step s (record s { serving = before ++ after; working = s.working - 1 })
  -- `readyPacket` by the command worker.
  finishes :
      (p : Ordered Packet)
      → s.command ≡ some p
      → Step s (record s { command = none; working = s.working - 1 })

-- Any number of steps.
pub data Steps (s : Dispatcher) : Dispatcher → Type 0 where
  stays : Steps s s
  goes : {t u : Dispatcher} → Steps s t → Step t u → Steps s u
