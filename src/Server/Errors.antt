-- ===== src/Server/Errors.antt =====
-- server.go, `statusFromError`, and errno_posix.go: Go errors as status codes.
pub mod Codes
pub mod Success
use sftp_go.Base.{
  ℕ, Bool, true, false, Option, none, some, List, [], ◌∷◌, ◌==◌, ◌||◌, if◌then◌else◌,
}
use sftp_go.Wire.{Bytes, Error}
use sftp_go.Response.{StatusError, Response, status}
use sftp_go.Server.Errors.Codes

-- The errors that the server meets, as far as `os.IsNotExist`, `errors.Is`, `errors.As` and the type
-- switch of `translateSyscallError` tell them apart: `syscall.Errno`, `*os.PathError` with its path,
-- `*os.LinkError` and `*os.SyscallError`, an error that wraps another (`%w`), `io.EOF`,
-- `os.ErrNotExist`, `fxerr`, those of the decoders, and any other.
pub data GoError : Type 0 where
  errno : ℕ → GoError
  path_error : Bytes → GoError → GoError
  link_error wrapped : GoError → GoError
  eof not_exist : GoError
  fx : ℕ → GoError
  wire : Error → GoError
  other : ℕ → GoError

-- `syscall.Errno` values.
abbrev pub eperm : ℕ
eperm = 1

abbrev pub enoent : ℕ
enoent = 2

abbrev pub ebadf : ℕ
ebadf = 9

abbrev pub eacces : ℕ
eacces = 13

abbrev pub enotdir : ℕ
enotdir = 20

abbrev pub einval : ℕ
einval = 22

-- `os.IsNotExist` looks under one `PathError`, `LinkError` or `SyscallError`, and no `%w`.
unfoldable pub says_not_exist : GoError → Bool
says_not_exist (errno n) = n == enoent
says_not_exist not_exist = true
says_not_exist _ = false

unfoldable pub is_not_exist : GoError → Bool
is_not_exist (path_error p e) = says_not_exist e
is_not_exist (link_error e) = says_not_exist e
is_not_exist e = says_not_exist e

-- `errors.Is(err, io.EOF)`.
unfoldable pub is_eof : GoError → Bool
is_eof eof = true
is_eof (path_error p e) = is_eof e
is_eof (link_error e) = is_eof e
is_eof (wrapped e) = is_eof e
is_eof _ = false

-- `errors.As(err, &e)` for an `fxerr`.
unfoldable pub as_fx : GoError → Option ℕ
as_fx (fx code) = some code
as_fx (path_error p e) = as_fx e
as_fx (link_error e) = as_fx e
as_fx (wrapped e) = as_fx e
as_fx _ = none

unfoldable pub translate_errno : ℕ → ℕ
translate_errno n =
    if n == 0
    then Codes.ok
    else if n == enoent
    then Codes.no_such_file
    else if n == eacces || n == eperm
    then Codes.permission_denied
    else Codes.failure

unfoldable pub translate_syscall_error : GoError → Option ℕ
translate_syscall_error (errno n) = some (translate_errno n)
translate_syscall_error (path_error p (errno n)) = some (translate_errno n)
translate_syscall_error _ = none

-- The code that `statusFromError` chooses for an error that is not nil.
unfoldable pub status_code : GoError → ℕ
status_code e = if is_not_exist e then Codes.no_such_file else elim (translate_syscall_error e) [
  | some code ↦ code
  | none ↦
      if is_eof e then Codes.eof else elim (as_fx e) [ some code ↦ code | none ↦ Codes.failure ]
]

-- `statusFromError`; `text` is the `Error` method.
unfoldable pub status_from_error : (GoError → Bytes) → ℕ → Option GoError → Response
status_from_error text id none = status id (record { code = Codes.ok; msg = []; lang = [] })
status_from_error text id (some e) =
    status id (record { code = status_code e; msg = text e; lang = [] })
