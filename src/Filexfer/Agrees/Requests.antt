-- ===== src/Filexfer/Agrees/Requests.antt =====
-- The requests that both encoders know, and that their bytes are the same.
use sftp_go.Base.{ℕ, ◌%◌, ◌^◌, ◌≡◌, refl, ap, ◌∙◌, sym, some, [], ◌∷◌, ◌++◌, append-nil, length}
use mathlib.Core.Option
use sftp_go.Wire.{Bytes, marshal_uint32, marshal_uint64, marshal_string, uint32_bytes}
use sftp_go.Attrs.{FileStat, marshal_file_stat}
use sftp_go.Packet.{
  Packet, file_stat, lstat, open_file, close, read, write, fstat, setstat, fsetstat, opendir,
  readdir, remove, mkdir, rmdir, realpath, stat, rename, readlink, symlink,
}
use sftp_go.Packet.Fxp
use sftp_go.Packet.Encode.{
  marshal_packet, marshal_id_string, marshal_symlink, marshal_read, marshal_rename, marshal_write,
  marshal_mkdir, marshal_attrs_field, marshal_open, marshal_setstat, marshal_fsetstat,
}
use sftp_go.Packet.Frame.{send_packet}
use sftp_go.Filexfer.Buffer.{
  Buffer, new_buffer, append_bytes, append_uint8, append_uint32, append_uint64, append_byte_slice,
  finish_packet, start_packet,
}
use sftp_go.Filexfer.Attributes.{Attributes, marshal_attributes}
use sftp_go.Filexfer.Paths.{
  marshal_lstat_packet, marshal_remove_packet, marshal_rmdir_packet, marshal_realpath_packet,
  marshal_stat_packet, marshal_readlink_packet, marshal_setstat_packet, marshal_mkdir_packet,
  marshal_rename_packet, marshal_symlink_packet,
}
use sftp_go.Filexfer.Handles.{
  marshal_opendir_packet, marshal_close_packet, marshal_fstat_packet, marshal_readdir_packet,
  marshal_open_packet, marshal_fsetstat_packet, marshal_read_packet, marshal_write_packet,
}
use sftp_go.Filexfer.Packets.{compose_packet}
use sftp_go.Filexfer.Packets.Bodies.{
  Body, marshal_body, lstat_packet, opendir_packet, remove_packet, rmdir_packet, realpath_packet,
  stat_packet, readlink_packet, close_packet, fstat_packet, readdir_packet, open_packet,
  setstat_packet, fsetstat_packet, mkdir_packet, read_packet, write_packet, rename_packet,
  symlink_packet,
}
use sftp_go.Filexfer.Agrees.{frame, frame_header, frame_attributes, append_uint64_lem}

-- The two packages' packets with the same fields. The one's mkdir has flags only, so that the
-- other's has attributes without a field; an open and the setstats have the FileStat that the
-- attributes are.
pub data Same (id : ℕ) : Body → Packet → Type 0 where
  same_lstat : (path : Bytes) → Same id (lstat_packet path) (lstat id path)
  same_opendir : (path : Bytes) → Same id (opendir_packet path) (opendir id path)
  same_remove : (path : Bytes) → Same id (remove_packet path) (remove id path)
  same_rmdir : (path : Bytes) → Same id (rmdir_packet path) (rmdir id path)
  same_realpath : (path : Bytes) → Same id (realpath_packet path) (realpath id path)
  same_stat : (path : Bytes) → Same id (stat_packet path) (stat id path)
  same_readlink : (path : Bytes) → Same id (readlink_packet path) (readlink id path)
  same_close : (handle : Bytes) → Same id (close_packet handle) (close id handle)
  same_fstat : (handle : Bytes) → Same id (fstat_packet handle) (fstat id handle)
  same_readdir : (handle : Bytes) → Same id (readdir_packet handle) (readdir id handle)
  same_open :
      (path : Bytes) (pflags : ℕ) (a : Attributes)
      → Same id
          (open_packet path pflags a)
          (open_file id path pflags a.attr_flags (file_stat a.fields))
  same_setstat :
      (path : Bytes) (a : Attributes)
      → Same id (setstat_packet path a) (setstat id a.attr_flags path (file_stat a.fields))
  same_fsetstat :
      (handle : Bytes) (a : Attributes)
      → Same id (fsetstat_packet handle a) (fsetstat id a.attr_flags handle (file_stat a.fields))
  same_mkdir :
      (path : Bytes) (a : Attributes)
      → a.attr_flags ≡ 0
      → Same id (mkdir_packet path a) (mkdir id 0 path)
  same_read :
      (handle : Bytes) (offset len : ℕ)
      → Same id (read_packet handle offset len) (read id len offset handle)
  same_write :
      (handle : Bytes) (offset : ℕ) (content : Bytes)
      → Same id
          (write_packet handle offset content)
          (write id (length content % 2 ^ 32) offset handle content)
  same_rename : (old new : Bytes) → Same id (rename_packet old new) (rename id old new)
  same_symlink :
      (target link : Bytes) → Same id (symlink_packet target link) (symlink id target link)

id_string :
    (t id : ℕ) (s : Bytes)
    → compose_packet (finish_packet [] (append_byte_slice s (start_packet t id (new_buffer []))))
      ≡ send_packet (marshal_id_string t id s, [])
unfolding append_byte_slice start_packet append_uint32 append_uint8 append_bytes new_buffer
    marshal_id_string marshal_uint32 marshal_string
id_string t id s = frame_header _ _ refl

-- A read or a write.
ranged :
    (t id offset len : ℕ) (handle payload : Bytes)
    → compose_packet (
        finish_packet payload (
          append_uint32 len
            (append_uint64 offset (append_byte_slice handle (start_packet t id (new_buffer []))))))
      ≡ send_packet (
        marshal_uint32
            (marshal_uint64
              (marshal_string (marshal_uint32 (0 ∷ 0 ∷ 0 ∷ 0 ∷ t ∷ []) id) handle)
              offset)
            len,
        payload,
      )
unfolding append_byte_slice start_packet append_uint32 append_uint8 append_bytes new_buffer
    marshal_uint32 marshal_uint64 marshal_string
ranged t id offset len handle payload =
    frame payload _ [] _
      (ap (◌++ uint32_bytes len) (append_uint64_lem offset _) ∙ sym (append-nil _))

no_attribute_bytes : (flags : ℕ) (fs : FileStat) → flags ≡ 0 → marshal_file_stat [] flags fs ≡ []
unfolding marshal_file_stat
no_attribute_bytes flags fs e = rw e refl

-- Attributes without a field are their flags.
frame_no_attributes :
    (rest : Bytes) (a : Attributes) (b : Buffer)
    → a.attr_flags ≡ 0
    → marshal_uint32 b.contents 0 ≡ 0 ∷ 0 ∷ 0 ∷ 0 ∷ rest
    → compose_packet (finish_packet [] (marshal_attributes a b))
      ≡ send_packet (0 ∷ 0 ∷ 0 ∷ 0 ∷ rest, [])
frame_no_attributes rest a b none_set e =
    frame_attributes rest a b (ap (marshal_uint32 b.contents) none_set ∙ e)
    ∙ ap (λ p. send_packet (0 ∷ 0 ∷ 0 ∷ 0 ∷ rest, p)) (no_attribute_bytes _ a.fields none_set)

-- A request of the client and the same request as package filexfer has it, composed with any slice
-- to write into: the first always has an encoding, and the bytes that are sent are those of the second.
pub marshal_body-marshal_packet :
    {id : ℕ} {b : Body} {p : Packet}
    → Same id b p
    → (capacity : ℕ) (given : Bytes)
    → Option.map send_packet (marshal_packet p)
      ≡ some (compose_packet (marshal_body b id capacity given))
unfolding marshal_packet marshal_body marshal_lstat_packet marshal_opendir_packet
    marshal_remove_packet marshal_rmdir_packet marshal_realpath_packet marshal_stat_packet
    marshal_readlink_packet marshal_close_packet marshal_fstat_packet marshal_readdir_packet
    marshal_open_packet marshal_setstat_packet marshal_fsetstat_packet marshal_mkdir_packet
    marshal_read_packet marshal_write_packet marshal_rename_packet marshal_symlink_packet
    append_byte_slice start_packet append_uint32 append_uint8 append_bytes new_buffer marshal_uint32
    marshal_string marshal_open marshal_setstat marshal_fsetstat marshal_mkdir marshal_read
    marshal_write marshal_rename marshal_symlink marshal_attrs_field
marshal_body-marshal_packet (same_lstat path) capacity given =
    ap some (sym (id_string Fxp.lstat _ path))
marshal_body-marshal_packet (same_opendir path) capacity given =
    ap some (sym (id_string Fxp.opendir _ path))
marshal_body-marshal_packet (same_remove path) capacity given =
    ap some (sym (id_string Fxp.remove _ path))
marshal_body-marshal_packet (same_rmdir path) capacity given =
    ap some (sym (id_string Fxp.rmdir _ path))
marshal_body-marshal_packet (same_realpath path) capacity given =
    ap some (sym (id_string Fxp.realpath _ path))
marshal_body-marshal_packet (same_stat path) capacity given =
    ap some (sym (id_string Fxp.stat _ path))
marshal_body-marshal_packet (same_readlink path) capacity given =
    ap some (sym (id_string Fxp.readlink _ path))
marshal_body-marshal_packet (same_close handle) capacity given =
    ap some (sym (id_string Fxp.close _ handle))
marshal_body-marshal_packet (same_fstat handle) capacity given =
    ap some (sym (id_string Fxp.fstat _ handle))
marshal_body-marshal_packet (same_readdir handle) capacity given =
    ap some (sym (id_string Fxp.readdir _ handle))
marshal_body-marshal_packet (same_open path pflags a) capacity given =
    ap some (sym (frame_attributes _ a _ refl))
marshal_body-marshal_packet (same_setstat path a) capacity given =
    ap some (sym (frame_attributes _ a _ refl))
marshal_body-marshal_packet (same_fsetstat handle a) capacity given =
    ap some (sym (frame_attributes _ a _ refl))
marshal_body-marshal_packet (same_rename old new) capacity given =
    ap some (sym (frame_header _ _ refl))
marshal_body-marshal_packet (same_symlink target link) capacity given =
    ap some (sym (frame_header _ _ refl))
marshal_body-marshal_packet (same_read handle offset len) capacity given =
    ap some (sym (ranged Fxp.read _ offset len handle []))
marshal_body-marshal_packet (same_write handle offset content) capacity given =
    ap some (sym (ranged Fxp.write _ offset _ handle content))
marshal_body-marshal_packet (same_mkdir path a e) capacity given =
    ap some (sym (frame_no_attributes _ a _ e refl))
