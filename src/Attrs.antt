-- ===== src/Attrs.antt =====
-- attrs.go, and the attribute blocks of packet.go: `FileStat`, `marshalFileStat`,
-- `unmarshalFileStat` and `unmarshalAttrs`.
pub mod RoundTrip
pub mod Total
pub mod Info
use sftp_go.Base.{
  ℕ, zero, suc, ◌%◌, ◌^◌, bit_and, Bool, not, List, [], ◌∷◌, length, ◌==◌, if◌then◌else◌,
}
use sftp_go.Wire.{
  Bytes, Read, ok, and_then, marshal_uint32, marshal_uint64, marshal_string, unmarshal_uint32_safe,
  unmarshal_uint64_safe, unmarshal_string_safe,
}

abbrev pub attr_size : ℕ
attr_size = 0x00000001

abbrev pub attr_uidgid : ℕ
attr_uidgid = 0x00000002

abbrev pub attr_permissions : ℕ
attr_permissions = 0x00000004

abbrev pub attr_acmodtime : ℕ
attr_acmodtime = 0x00000008

abbrev pub attr_extended : ℕ
attr_extended = 0x80000000

pub record StatExtended : Type 0 where
  pub ext_type : Bytes
  pub ext_data : Bytes

pub record FileStat : Type 0 where
  pub size : ℕ
  pub mode : ℕ
  pub mtime : ℕ
  pub atime : ℕ
  pub uid : ℕ
  pub gid : ℕ
  pub extended : List StatExtended

-- `flags&m != 0` and `flags&m == m`.
abbrev pub has_any : ℕ → ℕ → Bool
has_any flags m = not (bit_and flags m == 0)

abbrev pub has_all : ℕ → ℕ → Bool
has_all flags m = bit_and flags m == m

unfoldable pub marshal_extended : Bytes → List StatExtended → Bytes
marshal_extended b [] = b
marshal_extended b (attr ∷ rest) =
    marshal_extended (marshal_string (marshal_string b attr.ext_type) attr.ext_data) rest

unfoldable pub marshal_file_stat : Bytes → ℕ → FileStat → Bytes
unfolding marshal_extended
marshal_file_stat b flags fs =
    let b1 : Bytes = if has_any flags attr_size then marshal_uint64 b fs.size else b in
    let b2 : Bytes =
      if has_any flags attr_uidgid then marshal_uint32 (marshal_uint32 b1 fs.uid) fs.gid else b1 in
    let b3 : Bytes = if has_any flags attr_permissions then marshal_uint32 b2 fs.mode else b2 in
    let b4 : Bytes =
      if has_any flags attr_acmodtime
      then marshal_uint32 (marshal_uint32 b3 fs.atime) fs.mtime
      else b3 in
    if has_any flags attr_extended
    then marshal_extended (marshal_uint32 b4 (length fs.extended % 2 ^ 32)) fs.extended
    else b4

-- One block of `unmarshalFileStat` for each flag; a field whose flag is clear keeps its zero value.
unmarshal_size : ℕ → Bytes → Read ℕ
unmarshal_size flags b = if has_all flags attr_size then unmarshal_uint64_safe b else ok 0 b

unmarshal_pair : Bytes → Read (ℕ × ℕ)
unmarshal_pair b =
    and_then (unmarshal_uint32_safe b)
      λ x b'. and_then (unmarshal_uint32_safe b') λ y b''. ok (x, y) b''

unmarshal_uidgid : ℕ → Bytes → Read (ℕ × ℕ)
unmarshal_uidgid flags b = if has_all flags attr_uidgid then unmarshal_pair b else ok (0, 0) b

unmarshal_permissions : ℕ → Bytes → Read ℕ
unmarshal_permissions flags b =
    if has_all flags attr_permissions then unmarshal_uint32_safe b else ok 0 b

unmarshal_acmodtime : ℕ → Bytes → Read (ℕ × ℕ)
unmarshal_acmodtime flags b = if has_all flags attr_acmodtime then unmarshal_pair b else ok (0, 0) b

-- The loop over `count` pairs of strings.
unmarshal_entries : ℕ → Bytes → Read (List StatExtended)
unmarshal_entries zero b = ok [] b
unmarshal_entries (suc count) b = and_then (unmarshal_string_safe b) λ typ b1.
    and_then (unmarshal_string_safe b1) λ value b2.
      and_then (unmarshal_entries count b2)
        λ ext b3. ok (record { ext_type = typ; ext_data = value } ∷ ext) b3

unmarshal_extended : ℕ → Bytes → Read (List StatExtended)
unmarshal_extended flags b =
    if has_all flags attr_extended
    then and_then (unmarshal_uint32_safe b) unmarshal_entries
    else ok [] b

pub unmarshal_file_stat : ℕ → Bytes → Read FileStat
unmarshal_file_stat flags b = and_then (unmarshal_size flags b) λ size b1.
    and_then (unmarshal_uidgid flags b1) λ ids b2.
      and_then (unmarshal_permissions flags b2) λ mode b3.
        and_then (unmarshal_acmodtime flags b3) λ times b4.
          and_then (unmarshal_extended flags b4) λ ext b5.
            ok
              (record {
                size = size;
                mode = mode;
                mtime = times.1;
                atime = times.0;
                uid = ids.0;
                gid = ids.1;
                extended = ext;
              })
              b5

unfoldable pub unmarshal_attrs : Bytes → Read FileStat
unmarshal_attrs b = and_then (unmarshal_uint32_safe b) unmarshal_file_stat
