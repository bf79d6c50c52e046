-- ===== src/Packet/Decode/Shapes.antt =====
-- What can be encoded, and what the receiver sees of it.
use sftp_go.Base.{ℕ, ◌^◌, ◌<◌, ◌≡◌, [], ◌++◌, append_assoc, length, All}
use sftp_go.Wire.{Bytes, uint32_bytes}
use sftp_go.Wire.RoundTrip.{string_bytes, encoded, decoded}
use sftp_go.Packet.{
  Packet, ExtensionPair, raw, init, lstat, open_file, close, read, write, fstat, setstat, fsetstat,
  opendir, readdir, remove, mkdir, rmdir, realpath, stat, rename, readlink, symlink, extended,
}
use sftp_go.Packet.Encode.{start_packet, marshal_id_string, marshal_attrs_field}
use sftp_go.Packet.Decode.{done, unmarshal_id_string, make_packet}

abbrev pub IsU32 : ℕ → Type 0
IsU32 v = v < 2 ^ 32

abbrev pub IsText : Bytes → Type 0
IsText s = length s < 2 ^ 32

abbrev pub PairFits : ExtensionPair → Type 0
PairFits e = IsText e.name × IsText e.value

-- Numbers and lengths fit their fields, and a write's `Length` is the length of its data.
abbrev pub Encodable : Packet → Type 0
Encodable (init version exts) = IsU32 version × All PairFits exts
Encodable (lstat id path) = IsU32 id × IsText path
Encodable (open_file id path pflags flags attrs) =
    IsU32 id × IsText path × IsU32 pflags × IsU32 flags
Encodable (close id handle) = IsU32 id × IsText handle
Encodable (read id len offset handle) = IsU32 id × IsU32 len × (offset < 2 ^ 64) × IsText handle
Encodable (write id len offset handle content) =
    IsU32 id × IsU32 len × (offset < 2 ^ 64) × IsText handle × (length content ≡ len)
Encodable (fstat id handle) = IsU32 id × IsText handle
Encodable (setstat id flags path attrs) = IsU32 id × IsU32 flags × IsText path
Encodable (fsetstat id flags handle attrs) = IsU32 id × IsU32 flags × IsText handle
Encodable (opendir id path) = IsU32 id × IsText path
Encodable (readdir id handle) = IsU32 id × IsText handle
Encodable (remove id filename) = IsU32 id × IsText filename
Encodable (mkdir id flags path) = IsU32 id × IsU32 flags × IsText path
Encodable (rmdir id path) = IsU32 id × IsText path
Encodable (realpath id path) = IsU32 id × IsText path
Encodable (stat id path) = IsU32 id × IsText path
Encodable (rename id old new) = IsU32 id × IsText old × IsText new
Encodable (readlink id path) = IsU32 id × IsText path
Encodable (symlink id target link) = IsU32 id × IsText target × IsText link
Encodable (extended id request specific) = Unit {0}

-- The receiver sees the attributes of an open, setstat or fsetstat packet as raw bytes.
unfoldable pub on_wire : Packet → Packet
on_wire (open_file id path pflags flags attrs) =
    open_file id path pflags flags (raw (marshal_attrs_field flags attrs))
on_wire (setstat id flags path attrs) =
    setstat id flags path (raw (marshal_attrs_field flags attrs))
on_wire (fsetstat id flags handle attrs) =
    fsetstat id flags handle (raw (marshal_attrs_field flags attrs))
on_wire (init version exts) = init version exts
on_wire p = p

-- The header is the type and a body, which `makePacket` decodes together with the payload.
abbrev pub Rebuilds : ℕ → Bytes → Bytes → Packet → Type 0
Rebuilds t header payload p =
    (body : Bytes) × (header ≡ start_packet t ++ body) × (make_packet t (body ++ payload) ≡ done p)

pub id_string_header :
    (t id : ℕ) (s : Bytes)
    → marshal_id_string t id s ≡ start_packet t ++ (uint32_bytes id ++ string_bytes s)
unfolding marshal_id_string
id_string_header t id s = simp encoded

pub id_string_body :
    (p : ℕ → Bytes → Packet) (id : ℕ) (s : Bytes)
    → IsU32 id
    → IsText s
    → unmarshal_id_string p ((uint32_bytes id ++ string_bytes s) ++ []) ≡ done (p id s)
unfolding unmarshal_id_string
id_string_body p id s hid hs = simp (append_assoc, decoded, hid, hs)
