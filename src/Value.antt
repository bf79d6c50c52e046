-- ===== src/Value.antt =====
-- packet.go, `marshal`: the encoding of a Go value by its dynamic type.
use sftp_go.Base.{ℕ, ◌++◌, [], ◌∷◌}
use sftp_go.Wire.{Bytes, marshal_uint32, marshal_uint64, marshal_string}
use sftp_go.Attrs.{FileStat, marshal_file_stat}

-- The dynamic types that `marshal` accepts; on another one it panics. An `os.FileInfo` stands for
-- the flags and the FileStat that `fileStatFromInfo` makes of it; a struct and a slice are their
-- fields and elements in order.
mutual
  pub data Value : Type 0 where
    nil : Value
    uint8 : ℕ → Value
    uint32 : ℕ → Value
    uint64 : ℕ → Value
    str : Bytes → Value
    byte_slice : Bytes → Value
    file_info : ℕ → FileStat → Value
    compound : Values → Value

  pub data Values : Type 0 where
    end : Values
    field : Value → Values → Values

unfoldable pub marshal_file_info : Bytes → ℕ → FileStat → Bytes
marshal_file_info b flags fs = marshal_file_stat (marshal_uint32 b flags) flags fs

unfoldable mutual
  unfolding marshal_file_info

  pub marshal : Bytes → Value → Bytes
  marshal b nil = b
  marshal b (uint8 v) = b ++ v ∷ []
  marshal b (uint32 v) = marshal_uint32 b v
  marshal b (uint64 v) = marshal_uint64 b v
  marshal b (str v) = marshal_string b v
  marshal b (byte_slice v) = b ++ v
  marshal b (file_info flags fs) = marshal_file_info b flags fs
  marshal b (compound vs) = marshal_all b vs

  pub marshal_all : Bytes → Values → Bytes
  marshal_all b end = b
  marshal_all b (field v vs) = marshal_all (marshal b v) vs
