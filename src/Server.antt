-- ===== src/Server.antt =====
-- server.go: the server that serves the operating system's files. Its state and what it asks of the
-- system stand here; the handlers are in Server/Respond, the dispatch in Server/Dispatch.
pub mod Errors
pub mod Handles
pub mod Respond
pub mod Dispatch
pub mod ReadOnly
pub mod Replies
use sftp_go.Base.{ℕ, Bool, Option, List}
use sftp_go.Wire.{Bytes}
use sftp_go.Attrs.{FileStat}
use sftp_go.Allocator.{Allocator}
use sftp_go.Response.{StatVfs, Response}
use sftp_go.Server.Errors.{GoError}
use sftp_go.Server.Handles.{HandleTable}

-- A call's value or its error.
pub data Result (A : Type 0) : Type 0 where
  good : A → Result A
  bad : GoError → Result A

-- The flags of `os.OpenFile`, which the system combines into a number: the access, `O_CREATE`,
-- `O_TRUNC` and `O_EXCL`.
pub data Access : Type 0 where
  rdonly wronly rdwr : Access

pub record OsFlags : Type 0 where
  pub access : Access
  pub create : Bool
  pub trunc : Bool
  pub excl : Bool

-- What the server calls of packages os, path/filepath and syscall, on a world `W` that each call may
-- change, with open files in `F` and `os.FileInfo` in `I`. Paths come first, as in the calls.
pub record Os (W F I : Type 0) : Type 0 where
  pub stat : Bytes → W → Result I × W
  pub lstat : Bytes → W → Result I × W
  pub readlink : Bytes → W → Result Bytes × W
  pub abs_path : Bytes → W → Result Bytes × W
  pub statvfs : Bytes → W → Result StatVfs × W
  pub make_dir : Bytes → ℕ → W → Option GoError × W
  pub remove : Bytes → W → Option GoError × W
  pub rename : Bytes → Bytes → W → Option GoError × W
  pub symlink : Bytes → Bytes → W → Option GoError × W
  pub link : Bytes → Bytes → W → Option GoError × W
  pub truncate : Bytes → ℕ → W → Option GoError × W
  pub chmod : Bytes → ℕ → W → Option GoError × W
  pub chown : Bytes → ℕ → ℕ → W → Option GoError × W
  pub chtimes : Bytes → ℕ → ℕ → W → Option GoError × W
  pub open_file : Bytes → OsFlags → ℕ → W → Result F × W
  -- The methods of an open file. Reading gives the bytes read, at most as many as asked for, and the
  -- error beside them; the offset is the packet's uint64.
  pub file_name : F → Bytes
  pub file_stat : F → W → Result I × W
  pub file_close : F → W → Option GoError × W
  pub read_at : F → ℕ → ℕ → W → (Bytes × Option GoError) × W
  pub write_at : F → Bytes → ℕ → W → Option GoError × W
  pub read_dir : F → ℕ → W → Result (List I) × W
  pub file_truncate : F → ℕ → W → Option GoError × W
  pub file_chmod : F → ℕ → W → Option GoError × W
  pub file_chown : F → ℕ → ℕ → W → Option GoError × W
  -- `os.FileInfo`: its name, whether it is a directory, what `fileStatFromInfo` and `runLs` make of
  -- it; and the text of an error.
  pub info_name : I → Bytes
  pub is_dir : I → Bool
  pub info_stat : I → ℕ × FileStat
  pub run_ls : I → Bytes
  pub error_text : GoError → Bytes

-- `Server`: the fields that the handlers read and write, with the world that they act on.
pub record Server (W F : Type 0) : Type 0 where
  pub read_only : Bool
  pub handles : HandleTable F
  pub work_dir : Bytes
  pub max_tx_packet : ℕ
  pub alloc : Option Allocator
  pub world : W

-- A response and the state after it, or a run-time panic.
pub data Handled (W F : Type 0) : Type 0 where
  responds : Response → Server W F → Handled W F
  crashes : Handled W F
