-- ===== src/RequestServer/Answers.antt =====
-- request.go: reads and writes of open requests answer once, with the packet's id.
pub mod Calls
use sftp_go.Base.{
  ℕ, ◌≤◌, ◌≡◌, refl, arith, false, Bool-cases, ◌⊎◌, inl, inr, Option, none, some, Option-cases,
  List, [], ◌∷◌, length, ltb, ◌==◌, if◌then◌else◌,
}
use sftp_go.Wire.{Bytes}
use sftp_go.Allocator.{Allocator}
use sftp_go.Packet.{raw, packet_id, read, write, fsetstat}
use sftp_go.Packet.Frame.{max_msg_length}
use sftp_go.Requests.{
  Request, Subject, plain, specific, Method, unset, get, put, open_both, list, posix_rename_path,
  stat_vfs, stat_path, lstat_path, read_link, with_attrs, attrs_bytes,
}
use sftp_go.Requests.Listing.{Batch, names, refused}
use sftp_go.Response.{Response, response_id}
use sftp_go.Response
use sftp_go.Server.{Result, good, bad}
use sftp_go.Server.Errors.{GoError, eof, status_from_error}
use sftp_go.Server.Dispatch.{get_data_slice}
use sftp_go.RequestServer.{Handlers, OpenRequest}
use sftp_go.RequestServer.Transfer.{
  Called, answers, breaks, Chunk, subject_id, status_reply, packet_data, fresh_capacity,
  read_content, read_reply, may_answer, read_object, write_object, fileget, fileput, use_both,
  fileputget,
}
use sftp_go.RequestServer.Call.{
  command_request, commanded, vfs_reply, run_command, filecmd, batch_reply, list_open, entry_reply,
  stat_reply, stat_listed, stat_lister, filestat, link_reply, call_readlink, call,
}

-- A response that names no handle.
abbrev pub Plain : Response → Type 0
Plain (Response.handle id k) = ⊥
Plain _ = Unit {0}

abbrev pub Reports : ℕ → Response → Type 0
Reports id reply = (response_id reply ≡ id) × Plain reply

-- One response to the request `id`, which names no handle; no panic, and no allocator if there was
-- none.
abbrev pub Replies : {W O : Type 0} → ℕ → Option Allocator → Called W O → Type 0
Replies id alloc (answers reply r alloc' w) = Reports id reply × (alloc ≡ none → alloc' ≡ none)
Replies id alloc breaks = ⊥

-- A read fits a page, or there are no pages.
abbrev pub FitsPages : Option Allocator → ℕ → Type 0
FitsPages alloc max_tx = (alloc ≡ none) ⊎ (max_tx ≤ max_msg_length)

-- The attributes of an FSETSTAT are the bytes that the decoder stored.
abbrev pub RawCommand : Subject → Type 0
RawCommand (plain (fsetstat id flags handle attrs)) = (b : Bytes) × (attrs ≡ raw b)
RawCommand p = Unit {0}

-- An answer without an error is not nil.
abbrev pub Gives : {W A : Type 0} → Result (Option A) × W → Type 0
Gives (good none, w) = ⊥
Gives (good (some a), w) = Unit {0}
Gives (bad e, w) = Unit {0}

-- What the interfaces ask of the handlers and of the objects that they return: a read or a listing
-- counts at most what there is room for, and without an error there is an object.
pub record KeepsInterfaces {W O I : Type 0} (h : Handlers W O I) : Type 0 where
  pub reads_within : (o : O) (n offset : ℕ) (w : W) → length (h.object_read_at o n offset w).0.0 ≤ n
  pub lists_within : (o : O) (n offset : ℕ) (w : W) → length (h.object_list_at o n offset w).0.0 ≤ n
  pub gives_reader : (r : Request) (w : W) → Gives (h.fileread r w)
  pub gives_writer : (r : Request) (w : W) → Gives (h.filewrite r w)
  pub gives_lister : (r : Request) (w : W) → Gives (h.filelister r w)
  pub gives_both :
      (f : Request → W → Result (Option O) × W)
      → h.openfile ≡ some f
      → (r : Request) (w : W) → Gives (f r w)
  pub gives_lstat :
      (f : Request → W → Result (Option O) × W)
      → h.lstater ≡ some f
      → (r : Request) (w : W) → Gives (f r w)
  pub gives_vfs :
      (f : Request → W → Result (Option Response.StatVfs) × W)
      → h.vfs ≡ some f
      → (r : Request) (w : W) → Gives (f r w)

module _ {W O I : Type 0} (h : Handlers W O I) where
  pub status_Reports : (id : ℕ) (e : Option GoError) → Reports id (status_reply h id e)
  unfolding status_from_error response_id
  status_Reports id none = (refl, tt)
  status_Reports id (some e) = (refl, tt)

  -- An answer to a read that fits the buffer.
  read_content-Replies :
      (id capacity : ℕ) (d : Bytes) (r : OpenRequest O) (alloc alloc' : Option Allocator) (w : W)
      → length d ≤ capacity
      → (alloc ≡ none → alloc' ≡ none)
      → Replies id alloc (may_answer h r alloc' w (read_content h id capacity d))
  unfolding read_content may_answer response_id
  read_content-Replies id capacity d r alloc alloc' w fits keep =
      let inside : ltb capacity (length d) ≡ false = ground arith in
      rw (read_content, inside) ((refl, tt), keep)

  read_reply-Replies :
      (id capacity : ℕ) (x : Bytes × Option GoError) (r : OpenRequest O)
      (alloc alloc' : Option Allocator) (w : W)
      → length x.0 ≤ capacity
      → (alloc ≡ none → alloc' ≡ none)
      → Replies id alloc (may_answer h r alloc' w (read_reply h id capacity x))
  unfolding read_reply may_answer
  read_reply-Replies id capacity (d, none) r alloc alloc' w fits keep =
      read_content-Replies id capacity d r alloc alloc' w fits keep
  read_reply-Replies id capacity (d, some eof) r alloc alloc' w fits keep =
      elim (Bool-cases (length d == 0)) [
        | inl z ↦ rw (read_reply, z) (status_Reports id (some eof), keep)
        | inr z ↦ rw (read_reply, z) (read_content-Replies id capacity d r alloc alloc' w fits keep)
      ]
  read_reply-Replies id capacity (d, some e) r alloc alloc' w fits keep =
      (status_Reports id (some e), keep)

  -- What `packetData` gives when no page is too small.
  abbrev Given : Option Allocator → Option (Chunk × Option Allocator) → Type 0
  Given alloc none = ⊥
  Given alloc (some (c, alloc')) = (c.room ≤ c.capacity) × (alloc ≡ none → alloc' ≡ none)

  packet_data-Given :
      (p : Subject) (alloc : Option Allocator) (order_id max_tx : ℕ)
      → FitsPages alloc max_tx
      → Given alloc (packet_data h p alloc order_id max_tx)
  unfolding packet_data get_data_slice fresh_capacity
  packet_data-Given (plain (read id len offset handle)) none order_id max_tx f =
      (omega arith, λ e. refl)
  packet_data-Given (plain (read id len offset handle)) (some a) order_id max_tx f =
      let limit : max_tx ≤ max_msg_length = elim f [ inl e ↦ absurd (cc e) | inr le ↦ le ] in
      let short : ltb max_msg_length (if ltb max_tx len then max_tx else len) ≡ false =
        ground arith in
      rw (packet_data, get_data_slice, short) (ground arith, λ e. absurd (cc e))
  packet_data-Given (plain (write id len offset handle content)) alloc order_id max_tx f =
      (omega arith, λ e. e)
  packet_data-Given (plain p) alloc order_id max_tx f = (omega arith, λ e. e)
  packet_data-Given (specific s) alloc order_id max_tx f = (omega arith, λ e. e)

  pub status_Replies :
      (id : ℕ) (e : Option GoError) (r : OpenRequest O) (alloc : Option Allocator) (w : W)
      → Replies id alloc (answers (status_reply h id e) r alloc w)
  status_Replies id e r alloc w = (status_Reports id e, λ n. n)

module _ {W O I : Type 0} (h : Handlers W O I) (keeps : KeepsInterfaces h) where
  read_object-Replies :
      (id : ℕ) (r : OpenRequest O) (o : O) (alloc : Option Allocator)
      (d : Option (Chunk × Option Allocator)) (w : W)
      → Given h alloc d
      → Replies id alloc (read_object h id r o d w)
  unfolding read_object
  read_object-Replies id r o alloc none w g = elim g [ ]
  read_object-Replies id r o alloc (some (c, alloc')) w (fits, keep) =
      let few : length (h.object_read_at o c.room c.at_offset w).0.0 ≤ c.capacity =
        omega (arith, keeps.reads_within o c.room c.at_offset w) in
      read_reply-Replies h id c.capacity _ r alloc alloc' _ few keep

  write_object-Replies :
      (id : ℕ) (r : OpenRequest O) (o : O) (alloc : Option Allocator)
      (d : Option (Chunk × Option Allocator)) (w : W)
      → Given h alloc d
      → Replies id alloc (write_object h id r o d w)
  unfolding write_object
  write_object-Replies id r o alloc none w g = elim g [ ]
  write_object-Replies id r o alloc (some (c, alloc')) w (fits, keep) =
      (status_Reports h id _, keep)

  use_both-Replies :
      (r : OpenRequest O) (o : O) (p : Subject) (alloc : Option Allocator) (order_id max_tx : ℕ)
      (w : W)
      → FitsPages alloc max_tx
      → Replies (subject_id p) alloc (use_both h r o p alloc order_id max_tx w)
  unfolding use_both subject_id packet_id
  use_both-Replies r o (plain (read id len offset handle)) alloc order_id max_tx w f =
      read_object-Replies id r o alloc _ w (packet_data-Given h _ alloc order_id max_tx f)
  use_both-Replies r o (plain (write id len offset handle content)) alloc order_id max_tx w f =
      write_object-Replies id r o alloc _ w (packet_data-Given h _ alloc order_id max_tx f)
  use_both-Replies r o (plain p) alloc order_id max_tx w f = status_Replies h _ _ r alloc w
  use_both-Replies r o (specific s) alloc order_id max_tx w f = status_Replies h _ _ r alloc w

  pub fileget-Replies :
      (r : OpenRequest O) (p : Subject) (alloc : Option Allocator) (order_id max_tx : ℕ) (w : W)
      → FitsPages alloc max_tx
      → Replies (subject_id p) alloc (fileget h r p alloc order_id max_tx w)
  unfolding fileget
  fileget-Replies r p alloc order_id max_tx w f = elim (Option-cases r.reader_at) [
    | inl e ↦ simp (fileget, e) (status_Replies h _ _ r alloc w)
    | inr (o, e) ↦
        simp (fileget, e)
          (read_object-Replies _ r o alloc _ w (packet_data-Given h p alloc order_id max_tx f))
  ]

  pub fileput-Replies :
      (r : OpenRequest O) (p : Subject) (alloc : Option Allocator) (order_id max_tx : ℕ) (w : W)
      → FitsPages alloc max_tx
      → Replies (subject_id p) alloc (fileput h r p alloc order_id max_tx w)
  unfolding fileput
  fileput-Replies r p alloc order_id max_tx w f = elim (Option-cases r.writer_at) [
    | inl e ↦ simp (fileput, e) (status_Replies h _ _ r alloc w)
    | inr (o, e) ↦
        simp (fileput, e)
          (write_object-Replies _ r o alloc _ w (packet_data-Given h p alloc order_id max_tx f))
  ]

  pub fileputget-Replies :
      (r : OpenRequest O) (p : Subject) (alloc : Option Allocator) (order_id max_tx : ℕ) (w : W)
      → FitsPages alloc max_tx
      → Replies (subject_id p) alloc (fileputget h r p alloc order_id max_tx w)
  unfolding fileputget
  fileputget-Replies r p alloc order_id max_tx w f = elim (Option-cases r.writer_at_reader_at) [
    | inl e ↦ simp (fileputget, e) (status_Replies h _ _ r alloc w)
    | inr (o, e) ↦ simp (fileputget, e) (use_both-Replies r o p alloc order_id max_tx w f)
  ]
