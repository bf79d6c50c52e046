-- ===== src/Tests/Serving.antt =====
-- A server on a toy system, whose world counts the calls that change something.
use sftp_go.Base.{
  ℕ, suc, ◌≡◌, refl, arith, Bool, true, false, ◌||◌, inr, none, some, [], codes, if◌then◌else◌,
}
use sftp_go.Wire.{Bytes}
use sftp_go.Attrs.{FileStat}
use sftp_go.Packet.{Packet, open_file, extended, hardlink, other, packet_id, specific_readonly}
use sftp_go.Value.{nil}
use sftp_go.Response.{StatVfs, status}
use sftp_go.Server.{good, rdonly, OsFlags, Os, Server, responds}
use sftp_go.Server.Errors.{
  errno, is_not_exist, path_error, says_not_exist, status_code, status_from_error, translate_errno,
  translate_syscall_error,
}
use sftp_go.Server.Errors.Success.{SaysOk, status_code-ok}
use sftp_go.Server.Handles.{no_handles}
use sftp_go.Server.Dispatch.{
  extended_readonly, handle_packet, seems_readonly, serve_packet, respond_extended,
}
use sftp_go.Server.Respond.{open_access, open_with, opened, os_flags, respond_open}
use sftp_go.Server.Replies.{Replied}
use sftp_go.Server.Replies.Dispatched.{serve_packet-Replied}
use sftp_go.Server.ReadOnly.{OnlyLooks, Keeps, slips_through}
use sftp_go.Server.ReadOnly.Guard.{serve_packet_read_only}

abbrev empty_stat : FileStat
empty_stat = record { size = 0; mode = 0; mtime = 0; atime = 0; uid = 0; gid = 0; extended = [] }

abbrev empty_vfs : StatVfs
empty_vfs = record {
  id = 0;
  bsize = 0;
  frsize = 0;
  blocks = 0;
  bfree = 0;
  bavail = 0;
  files = 0;
  ffree = 0;
  favail = 0;
  fsid = 0;
  flag = 0;
  namemax = 0;
}

abbrev writes : OsFlags → Bool
writes flags = (flags.create || flags.trunc) || elim flags.access [ rdonly ↦ false | _ ↦ true ]

abbrev toy : Os ℕ Bytes FileStat
toy = record {
  stat = λ p w. (good empty_stat, w);
  lstat = λ p w. (good empty_stat, w);
  readlink = λ p w. (good p, w);
  abs_path = λ p w. (good p, w);
  statvfs = λ p w. (good empty_vfs, w);
  make_dir = λ p mode w. (none, suc w);
  remove = λ p w. (none, suc w);
  rename = λ p q w. (none, suc w);
  symlink = λ p q w. (none, suc w);
  link = λ p q w. (none, suc w);
  truncate = λ p n w. (none, suc w);
  chmod = λ p n w. (none, suc w);
  chown = λ p u g w. (none, suc w);
  chtimes = λ p a m w. (none, suc w);
  open_file = λ p flags mode w. (good p, if writes flags then suc w else w);
  file_name = λ f. f;
  file_stat = λ f w. (good empty_stat, w);
  file_close = λ f w. (none, w);
  read_at = λ f n offset w. ((codes "data", none), w);
  write_at = λ f d offset w. (none, suc w);
  read_dir = λ f n w. (good [], w);
  file_truncate = λ f n w. (none, suc w);
  file_chmod = λ f n w. (none, suc w);
  file_chown = λ f u g w. (none, suc w);
  info_name = λ i. [];
  is_dir = λ i. false;
  info_stat = λ i. (0, i);
  run_ls = λ i. [];
  error_text = λ e. [];
}

toy-OnlyLooks : OnlyLooks toy (λ w. w)
toy-OnlyLooks = record {
  stat_keeps = λ p w. refl;
  lstat_keeps = λ p w. refl;
  readlink_keeps = λ p w. refl;
  abs_path_keeps = λ p w. refl;
  statvfs_keeps = λ p w. refl;
  file_stat_keeps = λ f w. refl;
  file_close_keeps = λ f w. refl;
  read_at_keeps = λ f n offset w. refl;
  read_dir_keeps = λ f n w. refl;
  open_file_keeps = λ p flags mode w a c t. rw (a, c, t) refl;
}

abbrev guarded : Server ℕ Bytes
guarded = record {
  read_only = true;
  handles = no_handles;
  work_dir = codes "/srv";
  max_tx_packet = 32768;
  alloc = none;
  world = 0;
}

abbrev look : Packet
look = open_file 7 (codes "a") 1 0 (other nil)

serve_packet_read_only_example : Keeps (λ (w : ℕ). w) 0 (serve_packet toy 1 look guarded)
unfolding slips_through
serve_packet_read_only_example =
    serve_packet_read_only toy (λ w. w) toy-OnlyLooks 1 look guarded refl refl

serve_packet-Replied_example : Replied 7 guarded (serve_packet toy 1 look guarded)
unfolding packet_id
serve_packet-Replied_example = serve_packet-Replied toy 1 look guarded tt (inr (omega arith))

-- A read-only server makes a hard link all the same.
linked :
    serve_packet toy 1 (extended 7 [] (some (hardlink 7 [] (codes "/a") (codes "/b")))) guarded
    ≡ responds (status 7 (record { code = 0; msg = []; lang = [] })) (record guarded { world = 1 })
unfolding serve_packet handle_packet respond_extended seems_readonly extended_readonly
    specific_readonly status_from_error
linked = refl

-- And it creates a file for a request that opens it for reading.
created :
    Keeps (λ (w : ℕ). w) 1 (serve_packet toy 1 (open_file 7 (codes "a") 9 0 (other nil)) guarded)
unfolding serve_packet handle_packet seems_readonly respond_open open_with opened open_access
    os_flags
created = refl

status_code-ok_example : SaysOk (path_error (codes "a") (errno 0))
unfolding status_code is_not_exist says_not_exist translate_syscall_error translate_errno
status_code-ok_example = status_code-ok (path_error (codes "a") (errno 0)) refl
