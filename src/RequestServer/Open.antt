-- ===== src/RequestServer/Open.antt =====
-- request.go: `open` and `opendir`, which ask the handlers for what an open request will use.
use sftp_go.Base.{ℕ, Bool, ◌||◌, Option, none, some, if◌then◌else◌}
use sftp_go.Wire.{Bytes}
use sftp_go.Packet.Fxf
use sftp_go.Requests.{Request, Method}
use sftp_go.Requests
use sftp_go.Server.{Result, good, bad}
use sftp_go.Server.Errors.{GoError, errno, path_error, status_from_error}
use sftp_go.Server.Errors
use sftp_go.Server.Respond.{has_pflag}
use sftp_go.RequestServer.{Handlers, OpenRequest}

-- errno_posix.go: `wrapPathError`.
unfoldable pub wrap_path_error : Bytes → GoError → GoError
wrap_path_error path (errno n) = path_error path (errno n)
wrap_path_error path e = e

-- `errors.New("bad file flags")`.
abbrev pub bad_file_flags : GoError
bad_file_flags = Errors.other 1

-- The request with its method set.
unfoldable pub with_method : {O : Type 0} → Method → OpenRequest O → OpenRequest O
with_method m r = record r { request = record r.request { method = m } }

-- The result of opening: the request as it is then, and its response is a handle or an error.
pub data Opening (W O : Type 0) : Type 0 where
  now_open : OpenRequest O → W → Opening W O
  refuses : GoError → OpenRequest O → W → Opening W O

module _ {W O : Type 0} where
  -- What follows a handler's answer: the object, or nil, goes into its field.
  unfoldable pub hold :
      (Option O → OpenRequest O → OpenRequest O)
      → OpenRequest O
      → Result (Option O) × W
      → Opening W O
  hold put_in r (good o, w) = now_open (put_in o r) w
  hold put_in r (bad e, w) = refuses e r w

abbrev pub set_reader_at : {O : Type 0} → Option O → OpenRequest O → OpenRequest O
set_reader_at o r = record r { reader_at = o }

abbrev pub set_writer_at : {O : Type 0} → Option O → OpenRequest O → OpenRequest O
set_writer_at o r = record r { writer_at = o }

abbrev pub set_writer_at_reader_at : {O : Type 0} → Option O → OpenRequest O → OpenRequest O
set_writer_at_reader_at o r = record r { writer_at_reader_at = o }

abbrev pub set_lister_at : {O : Type 0} → Option O → OpenRequest O → OpenRequest O
set_lister_at o r = record r { lister_at = o }

-- Whether the open flags ask for any change.
unfoldable pub asks_to_write : ℕ → Bool
asks_to_write flags =
    (has_pflag flags Fxf.write || has_pflag flags Fxf.append)
    || (has_pflag flags Fxf.creat || has_pflag flags Fxf.trunc)

module _ {W O I : Type 0} (h : Handlers W O I) where
  unfoldable pub open_to_write : OpenRequest O → W → Opening W O
  open_to_write r w =
      let put = with_method Requests.put r in hold set_writer_at put (h.filewrite put.request w)

  unfoldable pub open_to_read : OpenRequest O → W → Opening W O
  open_to_read r w =
      let get = with_method Requests.get r in hold set_reader_at get (h.fileread get.request w)

  unfoldable pub open_for_both : OpenRequest O → W → Opening W O
  open_for_both r w = elim h.openfile [
    | none ↦ open_to_write r w
    | some openfile ↦
        let both = with_method Requests.open_both r in
        hold set_writer_at_reader_at both (openfile both.request w)
  ]

  -- `Request.open`.
  unfoldable pub open_request : OpenRequest O → W → Opening W O
  open_request r w =
      if asks_to_write r.request.flags
      then (if has_pflag r.request.flags Fxf.read then open_for_both r w else open_to_write r w)
      else if has_pflag r.request.flags Fxf.read
      then open_to_read r w
      else refuses bad_file_flags r w

  -- What follows `Filelist`: an error of the system gets the path.
  unfoldable pub listing : OpenRequest O → Result (Option O) × W → Opening W O
  listing r (good o, w) = now_open (set_lister_at o r) w
  listing r (bad e, w) = refuses (wrap_path_error r.request.filepath e) r w

  -- `Request.opendir`.
  unfoldable pub open_directory : OpenRequest O → W → Opening W O
  open_directory r w =
      let dir = with_method Requests.list r in listing dir (h.filelister dir.request w)
