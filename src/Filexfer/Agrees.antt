-- ===== src/Filexfer/Agrees.antt =====
-- The two encoders of the protocol, packet.go with `sendPacket` and internal/encoding/ssh/filexfer
-- with `ComposePacket`, put the same bytes on the wire.
pub mod Requests
use sftp_go.Base.{
  ℕ, ◌+◌, ◌-◌, ◌/◌, ◌%◌, ◌^◌, ◌≡◌, refl, ap, ◌∙◌, sym, arith, Bool, true, false, Option, none, some,
  List, [], ◌∷◌, ◌++◌, append_assoc, append-nil, length, length-append, if◌then◌else◌,
}
use sftp_go.Wire.{Bytes, marshal_uint32, marshal_uint64, marshal_string, uint32_bytes}
use sftp_go.Wire.RoundTrip.{uint64_bytes, marshal_uint64_lem}
use sftp_go.Attrs.{
  StatExtended, FileStat, has_any, attr_size, attr_uidgid, attr_permissions, attr_acmodtime,
  attr_extended, marshal_extended, marshal_file_stat,
}
use sftp_go.Attrs.RoundTrip.{attr_bytes, marshal_file_stat_lem}
use sftp_go.Packet.{
  Packet, file_stat, file_info, lstat, open_file, close, read, write, fstat, setstat, fsetstat,
  opendir, readdir, remove, mkdir, rmdir, realpath, stat, rename, readlink, symlink,
}
use sftp_go.Packet.Encode.{marshal_packet}
use sftp_go.Packet.Frame.{send_packet}
use sftp_go.Filexfer.Buffer.{
  Buffer, append_bytes, append_uint32, append_uint64, append_byte_slice, put_length, finish_packet,
}
use sftp_go.Filexfer.Attributes.{
  Attributes, marshal_extended_attribute, marshal_extended_attributes, marshal_attributes,
}
use sftp_go.Filexfer.Packets.{compose_packet}

uint64_bytes_lem :
    (v : ℕ)
    → v / 2 ^ 56 % 256
        ∷ v / 2 ^ 48 % 256
        ∷ v / 2 ^ 40 % 256
        ∷ v / 2 ^ 32 % 256
        ∷ v / 2 ^ 24 % 256
        ∷ v / 2 ^ 16 % 256
        ∷ v / 2 ^ 8 % 256
        ∷ v % 256
        ∷ []
      ≡ uint64_bytes v
unfolding uint64_bytes uint32_bytes
uint64_bytes_lem v = ground arith

pub append_uint64_lem :
    (v : ℕ) (b : Buffer) → (append_uint64 v b).contents ≡ marshal_uint64 b.contents v
unfolding append_uint64 append_bytes
append_uint64_lem v b =
    ap (b.contents ++◌) (uint64_bytes_lem v) ∙ sym (marshal_uint64_lem b.contents v)

put_length_lem :
    (n : ℕ) (rest : Bytes) (b : Buffer)
    → b.contents ≡ 0 ∷ 0 ∷ 0 ∷ 0 ∷ rest
    → (put_length n b).contents ≡ uint32_bytes (n % 2 ^ 32) ++ rest
unfolding put_length
put_length_lem n rest b e = rw e (ground arith)

-- A header and a payload of the one encoder: the zeros for the length, and what stands behind.
pub frame :
    (payload rest tail : Bytes) (b : Buffer)
    → b.contents ≡ 0 ∷ 0 ∷ 0 ∷ 0 ∷ (rest ++ tail)
    → compose_packet (finish_packet payload b) ≡ send_packet (0 ∷ 0 ∷ 0 ∷ 0 ∷ rest, tail ++ payload)
unfolding compose_packet finish_packet send_packet
frame payload rest tail b e =
    simp (put_length_lem _ (rest ++ tail) b e, append_assoc)
      (ap (λ n. uint32_bytes (n % 2 ^ 32) ++ (rest ++ (tail ++ payload)))
        (omega (arith, length-contents, length-append rest tail, length-append tail payload)))
  where
    length-contents : length b.contents ≡ length (0 ∷ 0 ∷ 0 ∷ 0 ∷ (rest ++ tail))
    length-contents = ap length e

marshal_extended_attributes_lem :
    (es : List StatExtended) (b : Buffer)
    → (marshal_extended_attributes es b).contents ≡ marshal_extended b.contents es
unfolding marshal_extended_attributes marshal_extended_attribute append_byte_slice append_uint32
    append_bytes marshal_extended marshal_string marshal_uint32
marshal_extended_attributes_lem [] b = refl
marshal_extended_attributes_lem (e ∷ es) b =
    marshal_extended_attributes_lem es (marshal_extended_attribute e b)

contents_if :
    (c : Bool) (x y : Buffer)
    → (if c then x else y).contents ≡ (if c then x.contents else y.contents)
contents_if true x y = refl
contents_if false x y = refl

marshal_attributes_lem :
    (a : Attributes) (b : Buffer)
    → (marshal_attributes a b).contents
      ≡ marshal_file_stat (marshal_uint32 b.contents a.attr_flags) a.attr_flags a.fields
unfolding marshal_attributes marshal_file_stat append_uint32 append_bytes marshal_uint32
marshal_attributes_lem a b = simp (contents_if, append_uint64_lem, marshal_extended_attributes_lem)

marshal_file_stat-nil :
    (b : Bytes) (flags : ℕ) (fs : FileStat)
    → marshal_file_stat b flags fs ≡ b ++ marshal_file_stat [] flags fs
marshal_file_stat-nil b flags fs =
    marshal_file_stat_lem b flags fs ∙ ap (b ++◌) (sym (marshal_file_stat_lem [] flags fs))

-- A packet without a payload.
pub frame_header :
    (rest : Bytes) (b : Buffer)
    → b.contents ≡ 0 ∷ 0 ∷ 0 ∷ 0 ∷ rest
    → compose_packet (finish_packet [] b) ≡ send_packet (0 ∷ 0 ∷ 0 ∷ 0 ∷ rest, [])
frame_header rest b e = frame [] rest [] b (rw (append-nil) e)

-- A packet that ends with its attributes: in the header here, the payload there.
pub frame_attributes :
    (rest : Bytes) (a : Attributes) (b : Buffer)
    → marshal_uint32 b.contents a.attr_flags ≡ 0 ∷ 0 ∷ 0 ∷ 0 ∷ rest
    → compose_packet (finish_packet [] (marshal_attributes a b))
      ≡ send_packet (0 ∷ 0 ∷ 0 ∷ 0 ∷ rest, marshal_file_stat [] a.attr_flags a.fields)
frame_attributes rest a b e =
    frame [] rest (marshal_file_stat [] a.attr_flags a.fields) (marshal_attributes a b) contents_eq
    ∙ ap (λ p. send_packet (0 ∷ 0 ∷ 0 ∷ 0 ∷ rest, p)) (append-nil _)
  where
    contents_eq :
        (marshal_attributes a b).contents
        ≡ (0 ∷ 0 ∷ 0 ∷ 0 ∷ rest) ++ marshal_file_stat [] a.attr_flags a.fields
    contents_eq =
        marshal_attributes_lem a b
        ∙ marshal_file_stat-nil _ a.attr_flags a.fields
        ∙ ap (◌++ marshal_file_stat [] a.attr_flags a.fields) e
