-- ===== src/RequestServer/Call.antt =====
-- request.go: `Request.call` and the functions that it hands a packet to.
use sftp_go.Base.{ℕ, ◌+◌, Option, none, some, List, [], ◌∷◌, map, length, ltb, if◌then◌else◌}
use sftp_go.Wire.{Bytes}
use sftp_go.Value.{end, field}
use sftp_go.Value
use sftp_go.Allocator.{Allocator}
use sftp_go.Packet.{fsetstat}
use sftp_go.Requests.{
  Request, Subject, plain, unset, get, put, open_both, list, rename_path, posix_rename_path,
  stat_vfs, stat_path, lstat_path, read_link, with_attrs,
}
use sftp_go.Requests.Listing.{max_filelist, Batch, names, refused, batch_of}
use sftp_go.Response.{Response, NameAttr, StatVfs}
use sftp_go.Server.{Result, good, bad}
use sftp_go.Server.Errors.{GoError, errno, enoent, eof, fx, path_error, status_from_error}
use sftp_go.Server.Errors
use sftp_go.Server.Errors.Codes
use sftp_go.Server.Respond.{one_name}
use sftp_go.RequestServer.{Handlers, OpenRequest}
use sftp_go.RequestServer.Open.{with_method}
use sftp_go.RequestServer.Transfer.{
  Called, answers, breaks, subject_id, unexpected_packet, status_reply, fileget, fileput,
  fileputget,
}

-- `fmt.Errorf("unexpected method: %s", …)`.
abbrev pub unexpected_method : GoError
unexpected_method = Errors.other 3

module _ {W O I : Type 0} (h : Handlers W O I) where
  -- The flags and attributes of an FSETSTAT; `none` is a panic on attributes that are no bytes.
  unfoldable pub command_request : Request → Subject → Option Request
  command_request r (plain (fsetstat id flags handle attrs)) = with_attrs r flags attrs
  command_request r p = some r

  unfoldable pub commanded : ℕ → OpenRequest O → Option Allocator → Option GoError × W → Called W O
  commanded id r alloc (e, w) = answers (status_reply h id e) r alloc w

  -- `stat.ID = …` panics on nil.
  unfoldable pub vfs_reply :
      ℕ → OpenRequest O → Option Allocator → Result (Option StatVfs) × W → Called W O
  vfs_reply id r alloc (good none, w) = breaks
  vfs_reply id r alloc (good (some v), w) =
      answers (Response.statvfs (record v { id = id })) r alloc w
  vfs_reply id r alloc (bad e, w) = answers (status_reply h id (some e)) r alloc w

  unfoldable pub run_command : ℕ → OpenRequest O → Option Allocator → W → Called W O
  run_command id r alloc w = elim r.request.method [
    | posix_rename_path ↦ elim h.posixrename [
      | some rename ↦ commanded id r alloc (rename r.request w)
      | none ↦
          let r' = with_method rename_path r in commanded id r' alloc (h.filecmder r'.request w)
    ]
    | stat_vfs ↦ elim h.vfs [
      | some vfs ↦ vfs_reply id r alloc (vfs r.request w)
      | none ↦ answers (status_reply h id (some (fx Codes.op_unsupported))) r alloc w
    ]
    | other ↦ commanded id r alloc (h.filecmder r.request w)
  ]

  -- `filecmd`.
  unfoldable pub filecmd : OpenRequest O → Subject → Option Allocator → W → Called W O
  filecmd r p alloc w = elim (command_request r.request p) [
    | none ↦ breaks
    | some request ↦ run_command (subject_id p) (record r { request = request }) alloc w
  ]

  unfoldable pub entry_attr : I → NameAttr
  entry_attr info = record {
    name = h.entry_name info;
    long_name = h.entry_ls info;
    attrs = field (Value.file_info (h.entry_stat info).0 (h.entry_stat info).1) end;
  }

  unfoldable pub batch_reply : ℕ → Batch I → Response
  batch_reply id (names found) = Response.name id (map entry_attr found)
  batch_reply id (refused e) = status_reply h id (some e)

  -- `filelist`, with the offset moved (`lsInc`) whatever the answer is; `finfo[:n]` panics on more
  -- entries than there is room for.
  unfoldable pub list_open : OpenRequest O → Subject → Option Allocator → W → Called W O
  list_open r p alloc w = elim r.lister_at [
    | none ↦ answers (status_reply h (subject_id p) (some unexpected_packet)) r alloc w
    | some o ↦
        let (batch, w') = h.object_list_at o max_filelist r.lsoffset w in
        let r' : OpenRequest O = record r { lsoffset = r.lsoffset + length batch.0 } in
        if ltb max_filelist (length batch.0) then breaks else elim r.request.method [
          | list ↦ answers (batch_reply (subject_id p) (batch_of batch)) r' alloc w'
          | other ↦ answers (status_reply h (subject_id p) (some unexpected_method)) r' alloc w'
        ]
  ]

  -- The lister that `filestat` asks for, and the request as it is then.
  unfoldable pub stat_lister : OpenRequest O → W → (Result (Option O) × W) × OpenRequest O
  stat_lister r w = elim r.request.method [
    | lstat_path ↦ elim h.lstater [
      | some lstat ↦ (lstat r.request w, r)
      | none ↦ let r' = with_method stat_path r in (h.filelister r'.request w, r')
    ]
    | other ↦ (h.filelister r.request w, r)
  ]

  -- The answer to a listing of one entry; an end of file beside it is no error.
  unfoldable pub entry_reply : ℕ → Bytes → (I → Response) → List I × Option GoError → Response
  entry_reply id path reply ([], none) = status_reply h id (some (path_error path (errno enoent)))
  entry_reply id path reply ([], some eof) =
      status_reply h id (some (path_error path (errno enoent)))
  entry_reply id path reply (info ∷ rest, none) = reply info
  entry_reply id path reply (info ∷ rest, some eof) = reply info
  entry_reply id path reply (infos, some e) = status_reply h id (some e)

  unfoldable pub stat_reply : ℕ → Request → List I × Option GoError → Response
  stat_reply id r found =
      let attrs =
        entry_reply id r.filepath
          (λ info. Response.attrs id (h.entry_stat info).0 (h.entry_stat info).1) found in
      elim r.method [
        | stat_path ↦ attrs
        | lstat_path ↦ attrs
        | read_link ↦ entry_reply id r.filepath (λ info. one_name id (h.entry_name info)) found
        | other ↦ status_reply h id (some unexpected_method)
      ]

  -- A call of nil panics, as does `finfo[:n]` on more than one entry.
  unfoldable pub stat_listed :
      ℕ → Option Allocator → (Result (Option O) × W) × OpenRequest O → Called W O
  stat_listed id alloc ((bad e, w), r) = answers (status_reply h id (some e)) r alloc w
  stat_listed id alloc ((good none, w), r) = breaks
  stat_listed id alloc ((good (some o), w), r) =
      let (found, w') = h.object_list_at o 1 0 w in
      if ltb 1 (length found.0) then breaks else answers (stat_reply id r.request found) r alloc w'

  unfoldable pub filestat : OpenRequest O → Subject → Option Allocator → W → Called W O
  filestat r p alloc w = stat_listed (subject_id p) alloc (stat_lister r w)

  unfoldable pub link_reply : ℕ → OpenRequest O → Option Allocator → Result Bytes × W → Called W O
  link_reply id r alloc (good path, w) = answers (one_name id path) r alloc w
  link_reply id r alloc (bad e, w) = answers (status_reply h id (some e)) r alloc w

  unfoldable pub call_readlink : OpenRequest O → Subject → Option Allocator → W → Called W O
  call_readlink r p alloc w = elim h.readlinker [
    | some readlink ↦ link_reply (subject_id p) r alloc (readlink r.request.filepath w)
    | none ↦ filestat r p alloc w
  ]

  -- `Request.call`.
  unfoldable pub call : OpenRequest O → Subject → Option Allocator → ℕ → ℕ → W → Called W O
  call r p alloc order_id max_tx w = elim r.request.method [
    | get ↦ fileget h r p alloc order_id max_tx w
    | put ↦ fileput h r p alloc order_id max_tx w
    | open_both ↦ fileputget h r p alloc order_id max_tx w
    | list ↦ list_open r p alloc w
    | stat_path ↦ filestat r p alloc w
    | lstat_path ↦ filestat r p alloc w
    | read_link ↦ call_readlink r p alloc w
    | unset ↦ answers (status_reply h (subject_id p) (some unexpected_method)) r alloc w
    | other ↦ filecmd r p alloc w
  ]
