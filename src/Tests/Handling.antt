-- ===== src/Tests/Handling.antt =====
-- A request server whose handlers keep a list of what was written and closed.
use sftp_go.Base.{
  same_bytes, ℕ, ◌≡◌, refl, inl, none, some, List, [], ◌∷◌, ◌++◌, codes, take, length-take, arith,
}
use sftp_go.Wire.{Bytes}
use sftp_go.Attrs.{FileStat}
use sftp_go.Packet.{Packet, open_file, opendir, read, readdir, close, fstat, raw}
use sftp_go.Response.{Response}
use mathlib.Core.Option
use sftp_go.Server.{good}
use sftp_go.Server.Errors.{eof}
use sftp_go.RequestServer.{
  Handlers, RequestServer, new_request_server, apply_option, apply_options, with_rs_max_tx_packet,
}
use sftp_go.Packet
use sftp_go.Packet.{get_path}
use sftp_go.Requests.{
  subject_of, subject_path, request_from_packet, fill_request, with_attrs, attrs_bytes,
}
use sftp_go.Server.Dispatch.{get_data_slice}
use sftp_go.Server.Handles.{look_up, delete, no_handles, get_handle, close_handle}
use sftp_go.Server.Handles.Decimal.{itoa, decimal}
use sftp_go.RequestServer.{unopened}
use sftp_go.RequestServer.Holding.{close_open_request, close_lister_at, close_object, close_next}
use sftp_go.RequestServer.Open.{open_request, open_to_write, hold, with_method, asks_to_write}
use sftp_go.RequestServer.Transfer.{fileput, write_object, packet_data, fresh_bytes}
use sftp_go.RequestServer.Call.{call}
use sftp_go.RequestServer.Answers.{KeepsInterfaces}
use sftp_go.RequestServer.Worker.{
  serve_requests, serve_request, serve_subject, serve_open, next_request, with_handle, after_open,
  put_back, replace, subject_handle, call_handle, called_open, serve_other, close_request,
}
use sftp_go.RequestServer.Ready.Run.{AllAnswered, serve_requests-new_request_server}

-- What happened to an object.
data Event : Type 0 where
  written : ℕ → Bytes → Event
  closed : ℕ → Event

abbrev plain_stat : FileStat
plain_stat = record { size = 3; mode = 0; mtime = 0; atime = 0; uid = 0; gid = 0; extended = [] }

-- Object 1 reads, object 2 writes, object 3 lists one entry.
abbrev keeper : Handlers (List Event) ℕ Bytes
keeper = record {
  fileread = λ r w. (good (some 1), w);
  filewrite = λ r w. (good (some 2), w);
  openfile = none;
  filecmder = λ r w. (none, w);
  posixrename = none;
  vfs = none;
  filelister = λ r w. (good (some 3), w);
  lstater = none;
  readlinker = none;
  pather = none;
  object_read_at = λ o n offset w. ((take n (codes "abc"), some eof), w);
  object_write_at = λ o d offset w. (none, w ++ written o d ∷ []);
  object_list_at = λ o room offset w. ((take room (codes "f" ∷ []), some eof), w);
  closer = λ o. some (λ w. (none, w ++ closed o ∷ []));
  transfer_errors = λ o. none;
  entry_name = λ i. i;
  entry_stat = λ i. (0, plain_stat);
  entry_ls = λ i. i;
  text = λ e. [];
  stale_page = λ n. [];
  spare = λ d. 0;
}

keeper-KeepsInterfaces : KeepsInterfaces keeper
keeper-KeepsInterfaces = record {
  reads_within = λ o n offset w. omega (arith, length-take n (codes "abc"));
  lists_within = λ o n offset w. omega (arith, length-take n (codes "f" ∷ []));
  gives_reader = λ r w. tt;
  gives_writer = λ r w. tt;
  gives_lister = λ r w. tt;
  gives_both = λ f e r w. absurd (cc e);
  gives_lstat = λ f e r w. absurd (cc e);
  gives_vfs = λ f e r w. absurd (cc e);
}

-- Open for writing, read from the same handle, close.
abbrev misuse : List (ℕ × Packet)
misuse =
    (1, open_file 5 (codes "a") 2 0 (raw []))
    ∷ (2, read 6 2 0 (codes "1"))
    ∷ (3, close 7 (codes "1"))
    ∷ []

serve_requests-new_request_server_example :
    AllAnswered misuse
      (serve_requests keeper misuse (new_request_server (with_rs_max_tx_packet 40000 ∷ []) []))
unfolding new_request_server apply_options apply_option subject_of
serve_requests-new_request_server_example =
    serve_requests-new_request_server keeper keeper-KeepsInterfaces
      (with_rs_max_tx_packet 40000 ∷ []) [] misuse
      ((tt, (([], refl), tt)), ((tt, (tt, tt)), ((tt, (tt, tt)), tt))) (inl refl)

-- The READ of a handle that was opened for writing writes two zeros to the file.
misuse_writes :
    Option.map
      (λ (x : List Response × RequestServer (List Event) ℕ). x.1.outside)
      (serve_requests keeper misuse (new_request_server [] []))
    ≡ some (written 2 (0 ∷ 0 ∷ []) ∷ closed 2 ∷ [])
unfolding new_request_server apply_options serve_requests serve_request serve_subject serve_open
    next_request unopened with_handle after_open put_back replace open_request open_to_write hold
    with_method asks_to_write request_from_packet fill_request with_attrs attrs_bytes subject_of
    subject_path subject_handle get_handle Packet.get_handle get_path look_up delete no_handles
    call_handle called_open call fileput write_object packet_data get_data_slice fresh_bytes
    serve_other close_request close_handle close_open_request close_lister_at close_object
    close_next itoa same_bytes decimal
misuse_writes = refl
