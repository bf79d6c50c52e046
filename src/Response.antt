-- ===== src/Response.antt =====
-- packet.go and server.go: the response packets and their encodings, and the decoders of the status
-- and data packets that the client uses.
pub mod RoundTrip
pub mod Binary
use sftp_go.Base.{
  ℕ, ◌+◌, ◌-◌, ◌*◌, ◌%◌, ◌^◌, Option, none, some, List, [], ◌∷◌, ◌++◌, length, take, drop,
  replicate, ltb, ◌==◌, if◌then◌else◌,
}
use sftp_go.Wire.{
  Bytes, Error, short_packet, Read, ok, fail, panic, and_then, uint32_bytes, marshal_uint32,
  marshal_uint64, marshal_string, unmarshal_uint32, unmarshal_uint32_safe, unmarshal_string_safe,
  split_at,
}
use sftp_go.Attrs.{FileStat}
use sftp_go.Value.{Values, marshal_all, marshal_file_info}
use sftp_go.Packet.{ExtensionPair}
use sftp_go.Packet.Fxp
use sftp_go.Packet.Encode.{marshal_pairs, start_packet}

-- `StatusError`.
pub record StatusError : Type 0 where
  pub code : ℕ
  pub msg : Bytes
  pub lang : Bytes

-- `sshFxpNameAttr`.
pub record NameAttr : Type 0 where
  pub name : Bytes
  pub long_name : Bytes
  pub attrs : Values

-- `StatVFS`, with the ID in front: the fields after it are in the order of the struct.
pub record StatVfs : Type 0 where
  pub id : ℕ
  pub bsize : ℕ
  pub frsize : ℕ
  pub blocks : ℕ
  pub bfree : ℕ
  pub bavail : ℕ
  pub files : ℕ
  pub ffree : ℕ
  pub favail : ℕ
  pub fsid : ℕ
  pub flag : ℕ
  pub namemax : ℕ

-- `responsePacket`. An `os.FileInfo` stands for the flags and the FileStat that `fileStatFromInfo`
-- makes of it.
pub data Response : Type 0 where
  version : ℕ → List ExtensionPair → Response
  status : ℕ → StatusError → Response
  handle : ℕ → Bytes → Response
  content : ℕ → ℕ → Bytes → Response
  name : ℕ → List NameAttr → Response
  attrs : ℕ → ℕ → FileStat → Response
  statvfs : StatVfs → Response

-- `id()`.
unfoldable pub response_id : Response → ℕ
response_id (version v exts) = 0
response_id (status id e) = id
response_id (handle id h) = id
response_id (content id len d) = id
response_id (name id ns) = id
response_id (attrs id flags fs) = id
response_id (statvfs s) = s.id

unfoldable pub marshal_status : Bytes → StatusError → Bytes
marshal_status b e = marshal_string (marshal_string (marshal_uint32 b e.code) e.msg) e.lang

unfoldable pub marshal_version : ℕ → List ExtensionPair → Bytes
marshal_version v exts = marshal_pairs (marshal_uint32 (start_packet Fxp.version) v) exts

unfoldable pub marshal_handle : ℕ → Bytes → Bytes
marshal_handle id h = marshal_string (marshal_uint32 (start_packet Fxp.handle) id) h

unfoldable pub marshal_status_packet : ℕ → StatusError → Bytes
marshal_status_packet id e = marshal_status (marshal_uint32 (start_packet Fxp.status) id) e

-- `sshFxpNameAttr.MarshalBinary`, and the payload of a name packet.
unfoldable pub marshal_name_attr : NameAttr → Bytes
marshal_name_attr na =
    marshal_all (marshal_string (marshal_string [] na.name) na.long_name) na.attrs

unfoldable pub marshal_name_attrs : Bytes → List NameAttr → Bytes
marshal_name_attrs payload [] = payload
marshal_name_attrs payload (na ∷ rest) = marshal_name_attrs (payload ++ marshal_name_attr na) rest

unfoldable pub marshal_name : ℕ → List NameAttr → Bytes × Bytes
marshal_name id nas = (
  marshal_uint32 (marshal_uint32 (start_packet Fxp.name) id) (length nas % 2 ^ 32),
  marshal_name_attrs [] nas,
)

-- `sshFxpDataPacket.marshalPacket`.
unfoldable pub marshal_data : ℕ → ℕ → Bytes → Bytes × Bytes
marshal_data id len d = (marshal_uint32 (marshal_uint32 (start_packet Fxp.content) id) len, d)

abbrev pub data_header_len : ℕ
data_header_len = 4 + 1 + 4 + 4

-- `copy(b[at:], src)`: as many bytes as both have room for.
unfoldable pub copy_at : ℕ → Bytes → Bytes → Bytes
copy_at at src b = (take at b ++ take (length b - at) src) ++ drop (at + length src) b

-- `sshFxpDataPacket.MarshalBinary`: the header is put in front by shifting the data in its own
-- slice. A length beyond the data, which no caller sets, reads what stands behind the data in its
-- array: `none` here.
unfoldable pub marshal_data_binary : ℕ → ℕ → Bytes → Option Bytes
marshal_data_binary id len d =
    let grown : Bytes = d ++ replicate data_header_len 0 in
    if ltb (length d) len
    then none
    else let shifted : Bytes = copy_at data_header_len (take len d) grown in
      let typed : Bytes = copy_at 4 (Fxp.content ∷ []) shifted in
      let numbered : Bytes = copy_at 5 (uint32_bytes id) typed in
      some (copy_at 9 (uint32_bytes len) numbered)

unfoldable pub marshal_stat : ℕ → ℕ → FileStat → Bytes × Bytes
marshal_stat id flags fs =
    (marshal_uint32 (start_packet Fxp.attrs) id, marshal_file_info [] flags fs)

-- `StatVFS.marshalPacket`: `binary.Write` of a struct writes its fields in order.
unfoldable pub marshal_statvfs_reply : StatVfs → Bytes × Bytes
marshal_statvfs_reply s = (
  0 ∷ 0 ∷ 0 ∷ 0 ∷ Fxp.extended_reply ∷ [],
  marshal_uint64
      (marshal_uint64
        (marshal_uint64
          (marshal_uint64
            (marshal_uint64
              (marshal_uint64
                (marshal_uint64
                  (marshal_uint64
                    (marshal_uint64
                      (marshal_uint64 (marshal_uint64 (marshal_uint32 [] s.id) s.bsize) s.frsize)
                      s.blocks)
                    s.bfree)
                  s.bavail)
                s.files)
              s.ffree)
            s.favail)
          s.fsid)
        s.flag)
      s.namemax,
)

-- `TotalSpace` and `FreeSpace`.
unfoldable pub total_space : StatVfs → ℕ
total_space s = s.frsize * s.blocks % 2 ^ 64

unfoldable pub free_space : StatVfs → ℕ
free_space s = s.frsize * s.bfree % 2 ^ 64

-- `marshalPacket` on a response.
unfoldable pub marshal_response : Response → Bytes × Bytes
marshal_response (version v exts) = (marshal_version v exts, [])
marshal_response (status id e) = (marshal_status_packet id e, [])
marshal_response (handle id h) = (marshal_handle id h, [])
marshal_response (content id len d) = marshal_data id len d
marshal_response (name id ns) = marshal_name id ns
marshal_response (attrs id flags fs) = marshal_stat id flags fs
marshal_response (statvfs s) = marshal_statvfs_reply s

-- What `unmarshalStatus` returns: the status as an error, an unexpected id, or a panic.
pub data Status : Type 0 where
  reported : StatusError → Status
  unexpected_id : ℕ → ℕ → Status
  crashed : Status

-- `unmarshalStringSafe` with its error dropped: then the string and the rest are empty.
unfoldable pub string_or_empty : Bytes → Bytes × Bytes
string_or_empty b = elim (unmarshal_string_safe b) [
  | ok v rest ↦ (v, rest)
  | fail e ↦ ([], [])
  | panic ↦ ([], [])
]

unfoldable pub unmarshal_status : ℕ → Bytes → Status
unmarshal_status id d = elim (unmarshal_uint32 d) [
  | fail e ↦ crashed
  | panic ↦ crashed
  | ok sid d1 ↦
      if sid == id
      then elim (unmarshal_uint32 d1) [
        | fail e ↦ crashed
        | panic ↦ crashed
        | ok code d2 ↦
            let (msg, d3) = string_or_empty d2 in
            let (lang, _) = string_or_empty d3 in
            reported (record { code = code; msg = msg; lang = lang })
      ]
      else unexpected_id id sid
]

-- `sshFxpDataPacket.UnmarshalBinary`.
unfoldable pub unmarshal_data : Bytes → Read Response
unmarshal_data b = and_then (unmarshal_uint32_safe b) λ id b1.
    and_then (unmarshal_uint32_safe b1) λ len b2.
      if ltb (length b2 % 2 ^ 32) len
      then fail short_packet
      else and_then (split_at len b2) λ d rest. ok (content id len d) rest
