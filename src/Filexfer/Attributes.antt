-- ===== src/Filexfer/Attributes.antt =====
-- internal/encoding/ssh/filexfer/attrs.go: `Attributes`, `ExtendedAttribute` and `NameEntry`, and
-- `ExtensionPair` of extensions.go, which is encoded like an extended attribute.
use sftp_go.Base.{
  ℕ, zero, suc, ◌+◌, ◌%◌, ◌^◌, Bool, List, [], ◌∷◌, bit_or, length, ◌==◌, if◌then◌else◌,
}
use sftp_go.Wire.{Bytes}
use sftp_go.Attrs.{
  StatExtended, FileStat, has_any, attr_size, attr_uidgid, attr_permissions, attr_acmodtime,
  attr_extended,
}
use sftp_go.Filexfer.Buffer.{
  Buffer, new_buffer, append_uint32, append_uint64, append_byte_slice, consume_uint32,
  consume_uint64, consume_count, consume_byte_slice, rest_bytes,
}

-- `Attributes`: the flags, and the fields, which are those of a FileStat.
pub record Attributes : Type 0 where
  pub attr_flags : ℕ
  pub fields : FileStat

-- The zero value.
unfoldable pub no_fields : FileStat
no_fields = record { size = 0; mode = 0; mtime = 0; atime = 0; uid = 0; gid = 0; extended = [] }

unfoldable pub no_attributes : Attributes
no_attributes = record { attr_flags = 0; fields = no_fields }

-- `GetSize` and `SetSize`, and the like for the other fields.
unfoldable pub get_size : Attributes → ℕ × Bool
get_size a = (a.fields.size, has_any a.attr_flags attr_size)

unfoldable pub set_size : ℕ → Attributes → Attributes
set_size n a = record {
  attr_flags = bit_or a.attr_flags attr_size;
  fields = record a.fields { size = n };
}

unfoldable pub get_uidgid : Attributes → (ℕ × ℕ) × Bool
get_uidgid a = ((a.fields.uid, a.fields.gid), has_any a.attr_flags attr_uidgid)

unfoldable pub set_uidgid : ℕ → ℕ → Attributes → Attributes
set_uidgid u g a = record {
  attr_flags = bit_or a.attr_flags attr_uidgid;
  fields = record a.fields { uid = u; gid = g };
}

unfoldable pub get_permissions : Attributes → ℕ × Bool
get_permissions a = (a.fields.mode, has_any a.attr_flags attr_permissions)

unfoldable pub set_permissions : ℕ → Attributes → Attributes
set_permissions perms a = record {
  attr_flags = bit_or a.attr_flags attr_permissions;
  fields = record a.fields { mode = perms };
}

unfoldable pub get_acmodtime : Attributes → (ℕ × ℕ) × Bool
get_acmodtime a = ((a.fields.atime, a.fields.mtime), has_any a.attr_flags attr_acmodtime)

unfoldable pub set_acmodtime : ℕ → ℕ → Attributes → Attributes
set_acmodtime at mt a = record {
  attr_flags = bit_or a.attr_flags attr_acmodtime;
  fields = record a.fields { atime = at; mtime = mt };
}

-- `ExtendedAttribute.Len`, and the sum over all.
unfoldable pub extended_attribute_len : StatExtended → ℕ
extended_attribute_len e = 4 + length e.ext_type + 4 + length e.ext_data

unfoldable pub extended_attributes_len : List StatExtended → ℕ
extended_attributes_len [] = 0
extended_attributes_len (e ∷ es) = extended_attribute_len e + extended_attributes_len es

-- `Attributes.Len`.
unfoldable pub attributes_len : Attributes → ℕ
attributes_len a =
    4
    + (if has_any a.attr_flags attr_size then 8 else 0)
    + (if has_any a.attr_flags attr_uidgid then 4 + 4 else 0)
    + (if has_any a.attr_flags attr_permissions then 4 else 0)
    + (if has_any a.attr_flags attr_acmodtime then 4 + 4 else 0)
    + (if has_any a.attr_flags attr_extended
        then 4 + extended_attributes_len a.fields.extended
        else 0)

-- `ExtendedAttribute.MarshalInto`, and the loop over all.
unfoldable pub marshal_extended_attribute : StatExtended → Buffer → Buffer
marshal_extended_attribute e b = append_byte_slice e.ext_data (append_byte_slice e.ext_type b)

unfoldable pub marshal_extended_attributes : List StatExtended → Buffer → Buffer
marshal_extended_attributes [] b = b
marshal_extended_attributes (e ∷ es) b =
    marshal_extended_attributes es (marshal_extended_attribute e b)

-- `Attributes.MarshalInto`.
unfoldable pub marshal_attributes : Attributes → Buffer → Buffer
marshal_attributes a b =
    let flags : ℕ = a.attr_flags in
    let b0 : Buffer = append_uint32 flags b in
    let b1 : Buffer = if has_any flags attr_size then append_uint64 a.fields.size b0 else b0 in
    let b2 : Buffer =
      if has_any flags attr_uidgid
      then append_uint32 a.fields.gid (append_uint32 a.fields.uid b1)
      else b1 in
    let b3 : Buffer =
      if has_any flags attr_permissions then append_uint32 a.fields.mode b2 else b2 in
    let b4 : Buffer =
      if has_any flags attr_acmodtime
      then append_uint32 a.fields.mtime (append_uint32 a.fields.atime b3)
      else b3 in
    if has_any flags attr_extended
    then marshal_extended_attributes a.fields.extended
        (append_uint32 (length a.fields.extended % 2 ^ 32) b4)
    else b4

-- `Attributes.MarshalBinary`.
unfoldable pub attributes_binary : Attributes → Bytes
attributes_binary a = rest_bytes (marshal_attributes a (new_buffer []))

-- `ExtendedAttribute.UnmarshalFrom`, and the loop over the entries.
unfoldable pub unmarshal_extended_attribute : Buffer → StatExtended × Buffer
unmarshal_extended_attribute b =
    let (typ, b1) = consume_byte_slice b in
    let (value, b2) = consume_byte_slice b1 in (record { ext_type = typ; ext_data = value }, b2)

unfoldable pub unmarshal_extended_attributes : ℕ → Buffer → List StatExtended × Buffer
unmarshal_extended_attributes zero b = ([], b)
unmarshal_extended_attributes (suc count) b =
    let (e, b1) = unmarshal_extended_attribute b in
    let (es, b2) = unmarshal_extended_attributes count b1 in (e ∷ es, b2)

-- The blocks of `XXX_UnmarshalByFlags`; a field whose flag is clear stays as it was.
unfoldable pub take_size : ℕ → FileStat × Buffer → FileStat × Buffer
take_size flags (fs, b) =
    let (n, b1) = consume_uint64 b in
    if has_any flags attr_size then (record fs { size = n }, b1) else (fs, b)

unfoldable pub take_uidgid : ℕ → FileStat × Buffer → FileStat × Buffer
take_uidgid flags (fs, b) =
    let (u, b1) = consume_uint32 b in
    let (g, b2) = consume_uint32 b1 in
    if has_any flags attr_uidgid then (record fs { uid = u; gid = g }, b2) else (fs, b)

unfoldable pub take_permissions : ℕ → FileStat × Buffer → FileStat × Buffer
take_permissions flags (fs, b) =
    let (m, b1) = consume_uint32 b in
    if has_any flags attr_permissions then (record fs { mode = m }, b1) else (fs, b)

unfoldable pub take_acmodtime : ℕ → FileStat × Buffer → FileStat × Buffer
take_acmodtime flags (fs, b) =
    let (at, b1) = consume_uint32 b in
    let (mt, b2) = consume_uint32 b1 in
    if has_any flags attr_acmodtime then (record fs { atime = at; mtime = mt }, b2) else (fs, b)

unfoldable pub take_extended : ℕ → FileStat × Buffer → FileStat × Buffer
take_extended flags (fs, b) =
    let (count, b1) = consume_count b in
    let (es, b2) = unmarshal_extended_attributes count b1 in
    if has_any flags attr_extended then (record fs { extended = es }, b2) else (fs, b)

-- `XXX_UnmarshalByFlags`; the error is the buffer's.
unfoldable pub unmarshal_by_flags : ℕ → Attributes → Buffer → Attributes × Buffer
unmarshal_by_flags flags a b =
    let (fs, b') = take_extended flags (
      take_acmodtime flags
        (take_permissions flags (take_uidgid flags (take_size flags (a.fields, b))))) in
    if flags == 0
    then (record a { attr_flags = flags }, b)
    else (record { attr_flags = flags; fields = fs }, b')

-- `Attributes.UnmarshalFrom`, and `UnmarshalBinary`.
unfoldable pub unmarshal_attributes : Attributes → Buffer → Attributes × Buffer
unmarshal_attributes a b = let (flags, b1) = consume_uint32 b in unmarshal_by_flags flags a b1

unfoldable pub attributes_of_binary : Bytes → Attributes × Buffer
attributes_of_binary d = unmarshal_attributes no_attributes (new_buffer d)

-- `NameEntry`.
pub record NameEntry : Type 0 where
  pub filename : Bytes
  pub longname : Bytes
  pub entry_attrs : Attributes

unfoldable pub name_entry_len : NameEntry → ℕ
name_entry_len e = 4 + length e.filename + 4 + length e.longname + attributes_len e.entry_attrs

unfoldable pub marshal_name_entry : NameEntry → Buffer → Buffer
marshal_name_entry e b =
    marshal_attributes e.entry_attrs (append_byte_slice e.longname (append_byte_slice e.filename b))

unfoldable pub unmarshal_name_entry : Buffer → NameEntry × Buffer
unmarshal_name_entry b =
    let (name, b1) = consume_byte_slice b in
    let (long, b2) = consume_byte_slice b1 in
    let (attrs, b3) = unmarshal_attributes no_attributes b2 in
    (record { filename = name; longname = long; entry_attrs = attrs }, b3)
