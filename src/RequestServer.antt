-- ===== src/RequestServer.antt =====
-- request-server.go: the server that hands each request to the program's handlers. Its state, its
-- options and what it asks of the handlers stand here; RequestServer/Holding has what an open request
-- holds, RequestServer/Open, RequestServer/Transfer and RequestServer/Call the handling of a request (request.go),
-- RequestServer/Worker the dispatch.
pub mod Holding
pub mod Open
pub mod Transfer
pub mod Call
pub mod Worker
pub mod Answers
pub mod Ready
use sftp_go.Base.{ℕ, Option, none, some, List, [], ◌∷◌, codes, ltb, if◌then◌else◌}
use sftp_go.Wire.{Bytes}
use sftp_go.Attrs.{FileStat}
use sftp_go.Allocator.{Allocator, new_allocator}
use sftp_go.Paths.{clean_path}
use sftp_go.Requests.{Request}
use sftp_go.Response.{StatVfs, Response}
use sftp_go.Server.{Result}
use sftp_go.Server.Errors.{GoError}
use sftp_go.Server.Handles.{HandleTable, no_handles}

-- The two interfaces with a method `RealPath` that a FileLister may have.
pub data RealPather (W : Type 0) : Type 0 where
  real_path : (Bytes → W → Result Bytes × W) → RealPather W
  legacy_real_path : (Bytes → W → Bytes × W) → RealPather W

-- `Handlers`, and the methods of the objects that they return: readers, writers and listers in `O`,
-- `none` for nil, and an `os.FileInfo` that is not nil in `I`. Each call may change a world `W`, but not
-- the request that it is given. An interface that a handler or an object need not have is an Option.
-- Reading and listing give what they count, `data[:n]`, and n is not negative, but may exceed the
-- slice; offsets are the packet's uint64. `stale_page` is what stands in a page of the allocator, cut
-- to a length, and `spare` how far the slice of a WRITE's data reaches beyond them; `entry_ls` is `runLs`
-- with the handlers' name lookup.
pub record Handlers (W O I : Type 0) : Type 0 where
  pub fileread : Request → W → Result (Option O) × W
  pub filewrite : Request → W → Result (Option O) × W
  pub openfile : Option (Request → W → Result (Option O) × W)
  pub filecmder : Request → W → Option GoError × W
  pub posixrename : Option (Request → W → Option GoError × W)
  pub vfs : Option (Request → W → Result (Option StatVfs) × W)
  pub filelister : Request → W → Result (Option O) × W
  pub lstater : Option (Request → W → Result (Option O) × W)
  pub readlinker : Option (Bytes → W → Result Bytes × W)
  pub pather : Option (RealPather W)
  pub object_read_at : O → ℕ → ℕ → W → (Bytes × Option GoError) × W
  pub object_write_at : O → Bytes → ℕ → W → Option GoError × W
  pub object_list_at : O → ℕ → ℕ → W → (List I × Option GoError) × W
  pub closer : O → Option (W → Option GoError × W)
  pub transfer_errors : O → Option (GoError → W → W)
  pub entry_name : I → Bytes
  pub entry_stat : I → ℕ × FileStat
  pub entry_ls : I → Bytes
  pub text : GoError → Bytes
  pub stale_page : ℕ → Bytes
  pub spare : Bytes → ℕ

-- `Request` with its `state`.
pub record OpenRequest (O : Type 0) : Type 0 where
  pub request : Request
  pub reader_at : Option O
  pub writer_at : Option O
  pub writer_at_reader_at : Option O
  pub lister_at : Option O
  pub lsoffset : ℕ

-- A new request's state is empty.
unfoldable pub unopened : {O : Type 0} → Request → OpenRequest O
unopened r = record {
  request = r;
  reader_at = none;
  writer_at = none;
  writer_at_reader_at = none;
  lister_at = none;
  lsoffset = 0;
}

-- `RequestServer`, with the world that the handlers act on; the allocator is that of `pktMgr`.
pub record RequestServer (W O : Type 0) : Type 0 where
  pub open_requests : HandleTable (OpenRequest O)
  pub start_directory : Bytes
  pub tx_packet_limit : ℕ
  pub pages : Option Allocator
  pub outside : W

abbrev pub default_max_tx_packet : ℕ
default_max_tx_packet = 32768

-- `RequestServerOption`: `WithRSAllocator`, `WithStartDirectory` and `WithRSMaxTxPacket`.
pub data ServerOption : Type 0 where
  with_rs_allocator : ServerOption
  with_start_directory : Bytes → ServerOption
  with_rs_max_tx_packet : ℕ → ServerOption

unfoldable pub apply_option : {W O : Type 0} → ServerOption → RequestServer W O → RequestServer W O
apply_option with_rs_allocator rs = record rs { pages = some new_allocator }
apply_option (with_start_directory dir) rs = record rs { start_directory = clean_path dir }
apply_option (with_rs_max_tx_packet size) rs =
    if ltb size default_max_tx_packet then rs else record rs { tx_packet_limit = size }

unfoldable pub apply_options :
    {W O : Type 0} → List ServerOption → RequestServer W O → RequestServer W O
apply_options [] rs = rs
apply_options (o ∷ os) rs = apply_options os (apply_option o rs)

-- `NewRequestServer`.
unfoldable pub new_request_server : {W O : Type 0} → List ServerOption → W → RequestServer W O
new_request_server options w = apply_options options (record {
  open_requests = no_handles;
  start_directory = codes "/";
  tx_packet_limit = default_max_tx_packet;
  pages = none;
  outside = w;
})

-- A response and the state after it, or a run-time panic.
pub data Served (W O : Type 0) : Type 0 where
  served : Response → RequestServer W O → Served W O
  panics : Served W O
