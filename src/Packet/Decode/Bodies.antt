-- ===== src/Packet/Decode/Bodies.antt =====
-- Each packet's header and body, encoded and decoded.
use sftp_go.Base.{
  ℕ, ◌%◌, ◌^◌, ◌<◌, ◌≡◌, arith, [], ◌++◌, append_assoc, append-nil, length, ltb, if◌then◌else◌,
}
use sftp_go.Wire.{Bytes, short_packet, ok, uint32_bytes, split_at}
use sftp_go.Wire.RoundTrip.{uint64_bytes, string_bytes, encoded, decoded, split_at_append}
use sftp_go.Packet.{raw, open_file, read, write, setstat, fsetstat, mkdir, rename, symlink}
use sftp_go.Packet.Encode.{
  marshal_symlink, marshal_read, marshal_rename, marshal_write, marshal_mkdir, marshal_open,
  marshal_setstat, marshal_fsetstat,
}
use sftp_go.Packet.Decode.{done, partly, decode, make_packet}
use sftp_go.Packet.Fxp
use sftp_go.Packet.Decode.Shapes.{IsU32, IsText, Rebuilds}

pub rename-Rebuilds :
    (id : ℕ) (old new : Bytes)
    → IsU32 id
    → IsText old
    → IsText new
    → Rebuilds Fxp.rename (marshal_rename id old new) [] (rename id old new)
unfolding marshal_rename make_packet
rename-Rebuilds id old new hid ho hn = (
  uint32_bytes id ++ (string_bytes old ++ string_bytes new),
  simp encoded,
  simp (append_assoc, decoded, hid, ho, hn),
)

pub symlink-Rebuilds :
    (id : ℕ) (target link : Bytes)
    → IsU32 id
    → IsText target
    → IsText link
    → Rebuilds Fxp.symlink (marshal_symlink id target link) [] (symlink id target link)
unfolding marshal_symlink make_packet
symlink-Rebuilds id target link hid ht hl = (
  uint32_bytes id ++ (string_bytes target ++ string_bytes link),
  simp encoded,
  simp (append_assoc, decoded, hid, ht, hl),
)

pub read-Rebuilds :
    (id len offset : ℕ) (handle : Bytes)
    → IsU32 id
    → IsU32 len
    → offset < 2 ^ 64
    → IsText handle
    → Rebuilds Fxp.read (marshal_read id len offset handle) [] (read id len offset handle)
unfolding marshal_read make_packet
read-Rebuilds id len offset handle hid hl ho hh = (
  uint32_bytes id ++ (string_bytes handle ++ (uint64_bytes offset ++ uint32_bytes len)),
  simp encoded,
  simp (append_assoc, decoded, hid, hl, ho, hh),
)

pub mkdir-Rebuilds :
    (id flags : ℕ) (path : Bytes)
    → IsU32 id
    → IsU32 flags
    → IsText path
    → Rebuilds Fxp.mkdir (marshal_mkdir id flags path) [] (mkdir id flags path)
unfolding marshal_mkdir make_packet
mkdir-Rebuilds id flags path hid hf hp = (
  uint32_bytes id ++ (string_bytes path ++ uint32_bytes flags),
  simp encoded,
  simp (append_assoc, decoded, hid, hf, hp),
)

pub open-Rebuilds :
    (id : ℕ) (path : Bytes) (pflags flags : ℕ) (attrs : Bytes)
    → IsU32 id
    → IsText path
    → IsU32 pflags
    → IsU32 flags
    → Rebuilds Fxp.open_file
        (marshal_open id path pflags flags)
        attrs
        (open_file id path pflags flags (raw attrs))
unfolding marshal_open make_packet
open-Rebuilds id path pflags flags attrs hid hp hpf hf = (
  uint32_bytes id ++ (string_bytes path ++ (uint32_bytes pflags ++ uint32_bytes flags)),
  simp encoded,
  simp (append_assoc, decoded, hid, hp, hpf, hf),
)

pub setstat-Rebuilds :
    (id flags : ℕ) (path attrs : Bytes)
    → IsU32 id
    → IsU32 flags
    → IsText path
    → Rebuilds Fxp.setstat (marshal_setstat id flags path) attrs (setstat id flags path (raw attrs))
unfolding marshal_setstat make_packet
setstat-Rebuilds id flags path attrs hid hf hp = (
  uint32_bytes id ++ (string_bytes path ++ uint32_bytes flags),
  simp encoded,
  simp (append_assoc, decoded, hid, hf, hp),
)

pub fsetstat-Rebuilds :
    (id flags : ℕ) (handle attrs : Bytes)
    → IsU32 id
    → IsU32 flags
    → IsText handle
    → Rebuilds Fxp.fsetstat
        (marshal_fsetstat id flags handle)
        attrs
        (fsetstat id flags handle (raw attrs))
unfolding marshal_fsetstat make_packet
fsetstat-Rebuilds id flags handle attrs hid hf hh = (
  uint32_bytes id ++ (string_bytes handle ++ uint32_bytes flags),
  simp encoded,
  simp (append_assoc, decoded, hid, hf, hh),
)

pub write_data :
    (id len offset : ℕ) (handle content : Bytes)
    → IsU32 len
    → length content ≡ len
    → (if ltb (length content % 2 ^ 32) len
        then partly (write id len offset handle []) short_packet
        else decode
            (split_at len content)
            (write id len offset handle [])
            (λ d _. done (write id len offset handle d)))
      ≡ done (write id len offset handle content)
write_data id len offset handle content hl e =
    let whole : split_at len content ≡ ok content [] =
      rw (append-nil, e) at (split_at_append content []) in
    ground (arith, whole)

pub write-Rebuilds :
    (id len offset : ℕ) (handle content : Bytes)
    → IsU32 id
    → IsU32 len
    → offset < 2 ^ 64
    → IsText handle
    → length content ≡ len
    → Rebuilds Fxp.write
        (marshal_write id len offset handle)
        content
        (write id len offset handle content)
unfolding marshal_write make_packet
write-Rebuilds id len offset handle content hid hl ho hh e = (
  uint32_bytes id ++ (string_bytes handle ++ (uint64_bytes offset ++ uint32_bytes len)),
  simp encoded,
  simp (append_assoc, decoded, hid, hl, ho, hh) (write_data id len offset handle content hl e),
)
