-- ===== src/RequestServer/Transfer.antt =====
-- request.go: reads and writes of open requests, and what `Request.call` returns.
use sftp_go.Base.{
  ℕ, ◌+◌, ◌%◌, ◌^◌, Option, none, some, [], length, replicate, ltb, ◌==◌, if◌then◌else◌,
}
use sftp_go.Wire.{Bytes}
use sftp_go.Allocator.{Allocator}
use sftp_go.Packet.Frame.{max_msg_length}
use sftp_go.Packet.{packet_id, specific_id, read, write}
use sftp_go.Requests.{Subject, plain, specific}
use sftp_go.Response.{Response, data_header_len}
use sftp_go.Server.Errors.{GoError, eof, status_from_error}
use sftp_go.Server.Errors
use sftp_go.Server.Dispatch.{get_data_slice}
use sftp_go.RequestServer.{Handlers, OpenRequest}

-- `errors.New("unexpected … packet")`.
abbrev pub unexpected_packet : GoError
unexpected_packet = Errors.other 2

unfoldable pub subject_id : Subject → ℕ
subject_id (plain p) = packet_id p
subject_id (specific s) = specific_id s

-- The response, the request as it is then, the allocator and the world; or a run-time panic.
pub data Called (W O : Type 0) : Type 0 where
  answers : Response → OpenRequest O → Option Allocator → W → Called W O
  breaks : Called W O

-- What `packetData` returns: a buffer with its length, how far it can be sliced and its content, and
-- an offset.
pub record Chunk : Type 0 where
  pub room : ℕ
  pub capacity : ℕ
  pub bytes : Bytes
  pub at_offset : ℕ

module _ {W O I : Type 0} (h : Handlers W O I) where
  -- `statusFromError` with the texts of the errors.
  abbrev pub status_reply : ℕ → Option GoError → Response
  status_reply id e = status_from_error h.text id e

  -- The new buffer of `getDataSlice`: zeros, or what stands in a page.
  unfoldable pub fresh_bytes : ℕ → Option Allocator → Bytes
  fresh_bytes n none = replicate n 0
  fresh_bytes n (some a) = h.stale_page n

  -- The capacity of that buffer: the header of the answer fits, too, or it is that of the page.
  unfoldable pub fresh_capacity : ℕ → Option Allocator → ℕ
  fresh_capacity n none = n + data_header_len
  fresh_capacity n (some a) = max_msg_length

  -- `packetData`; `none` is a panic of `getDataSlice`.
  unfoldable pub packet_data :
      Subject → Option Allocator → ℕ → ℕ → Option (Chunk × Option Allocator)
  packet_data (plain (read id len offset handle)) alloc order_id max_tx =
      elim (get_data_slice len alloc order_id max_tx) [
        | none ↦ none
        | some (n, alloc') ↦ some (
          record {
            room = n;
            capacity = fresh_capacity n alloc;
            bytes = fresh_bytes n alloc;
            at_offset = offset;
          },
          alloc',
        )
      ]
  packet_data (plain (write id len offset handle content)) alloc order_id max_tx = some (
    record {
      room = length content;
      capacity = length content + h.spare content;
      bytes = content;
      at_offset = offset;
    },
    alloc,
  )
  packet_data p alloc order_id max_tx =
      some (record { room = 0; capacity = 0; bytes = []; at_offset = 0 }, alloc)

  -- `data[:n]`, which panics beyond the capacity of the buffer.
  unfoldable pub read_content : ℕ → ℕ → Bytes → Option Response
  read_content id capacity d =
      if ltb capacity (length d) then none else some (Response.content id (length d % 2 ^ 32) d)

  -- What follows `ReadAt`: an end of file behind some bytes is no error.
  unfoldable pub read_reply : ℕ → ℕ → Bytes × Option GoError → Option Response
  read_reply id capacity (d, none) = read_content id capacity d
  read_reply id capacity (d, some eof) =
      if length d == 0 then some (status_reply id (some eof)) else read_content id capacity d
  read_reply id capacity (d, some e) = some (status_reply id (some e))

  unfoldable pub may_answer : OpenRequest O → Option Allocator → W → Option Response → Called W O
  may_answer r alloc w none = breaks
  may_answer r alloc w (some reply) = answers reply r alloc w

  unfoldable pub read_object :
      ℕ → OpenRequest O → O → Option (Chunk × Option Allocator) → W → Called W O
  read_object id r o none w = breaks
  read_object id r o (some (c, alloc)) w =
      let (result, w') = h.object_read_at o c.room c.at_offset w in
      may_answer r alloc w' (read_reply id c.capacity result)

  unfoldable pub write_object :
      ℕ → OpenRequest O → O → Option (Chunk × Option Allocator) → W → Called W O
  write_object id r o none w = breaks
  write_object id r o (some (c, alloc)) w =
      let (e, w') = h.object_write_at o c.bytes c.at_offset w in
      answers (status_reply id e) r alloc w'

  unfoldable pub fileget : OpenRequest O → Subject → Option Allocator → ℕ → ℕ → W → Called W O
  fileget r p alloc order_id max_tx w = elim r.reader_at [
    | none ↦ answers (status_reply (subject_id p) (some unexpected_packet)) r alloc w
    | some o ↦ read_object (subject_id p) r o (packet_data p alloc order_id max_tx) w
  ]

  unfoldable pub fileput : OpenRequest O → Subject → Option Allocator → ℕ → ℕ → W → Called W O
  fileput r p alloc order_id max_tx w = elim r.writer_at [
    | none ↦ answers (status_reply (subject_id p) (some unexpected_packet)) r alloc w
    | some o ↦ write_object (subject_id p) r o (packet_data p alloc order_id max_tx) w
  ]

  -- The type switch of `fileputget`.
  unfoldable pub use_both : OpenRequest O → O → Subject → Option Allocator → ℕ → ℕ → W → Called W O
  use_both r o (plain (read id len offset handle)) alloc order_id max_tx w =
      read_object id r o (packet_data (plain (read id len offset handle)) alloc order_id max_tx) w
  use_both r o (plain (write id len offset handle content)) alloc order_id max_tx w =
      write_object id r o
        (packet_data (plain (write id len offset handle content)) alloc order_id max_tx) w
  use_both r o p alloc order_id max_tx w =
      answers (status_reply (subject_id p) (some unexpected_packet)) r alloc w

  unfoldable pub fileputget : OpenRequest O → Subject → Option Allocator → ℕ → ℕ → W → Called W O
  fileputget r p alloc order_id max_tx w = elim r.writer_at_reader_at [
    | none ↦ answers (status_reply (subject_id p) (some unexpected_packet)) r alloc w
    | some o ↦ use_both r o p alloc order_id max_tx w
  ]
