-- ===== src/Filexfer/Buffer.antt =====
-- internal/encoding/ssh/filexfer/buffer.go: `Buffer`. Its storage is a list of bytes; the capacity is
-- an argument where the code asks for it.
use sftp_go.Base.{
  ℕ, ◌+◌, ◌-◌, ◌*◌, ◌/◌, ◌%◌, ◌^◌, Bool, true, false, not, Option, none, some, [], ◌∷◌, ◌++◌,
  length, take, drop, replicate, ltb, ◌==◌, if◌then◌else◌,
}
use sftp_go.Wire.{Bytes, Error, short_packet, uint32_bytes}

pub record Buffer : Type 0 where
  pub contents : Bytes
  pub off : ℕ
  pub err : Option Error

-- `NewBuffer`.
unfoldable pub new_buffer : Bytes → Buffer
new_buffer buf = record { contents = buf; off = 0; err = none }

-- `NewMarshalBuffer`.
unfoldable pub new_marshal_buffer : ℕ → Buffer
new_marshal_buffer size = new_buffer (replicate (4 + 1 + 4 + size) 0)

-- `Bytes` and `Len`.
unfoldable pub rest_bytes : Buffer → Bytes
rest_bytes b = drop b.off b.contents

unfoldable pub rest_len : Buffer → ℕ
rest_len b = length b.contents - b.off

-- `Reset`.
unfoldable pub reset : Buffer → Buffer
reset b = new_buffer []

unfoldable pub append_bytes : Bytes → Buffer → Buffer
append_bytes v b = record b { contents = b.contents ++ v }

unfoldable pub append_uint8 : ℕ → Buffer → Buffer
append_uint8 v b = append_bytes (v ∷ []) b

unfoldable pub append_bool : Bool → Buffer → Buffer
append_bool true b = append_uint8 1 b
append_bool false b = append_uint8 0 b

unfoldable pub append_uint16 : ℕ → Buffer → Buffer
append_uint16 v b = append_bytes (v / 2 ^ 8 % 256 ∷ v % 256 ∷ []) b

unfoldable pub append_uint32 : ℕ → Buffer → Buffer
append_uint32 v b = append_bytes (uint32_bytes v) b

-- `AppendCount`; a count is not negative.
unfoldable pub append_count : ℕ → Buffer → Buffer
append_count v b = append_uint32 (v % 2 ^ 32) b

unfoldable pub append_uint64 : ℕ → Buffer → Buffer
append_uint64 v b =
    append_bytes
      (v / 2 ^ 56 % 256
        ∷ v / 2 ^ 48 % 256
        ∷ v / 2 ^ 40 % 256
        ∷ v / 2 ^ 32 % 256
        ∷ v / 2 ^ 24 % 256
        ∷ v / 2 ^ 16 % 256
        ∷ v / 2 ^ 8 % 256
        ∷ v % 256
        ∷ [])
      b

-- `AppendByteSlice` and `AppendString`.
unfoldable pub append_byte_slice : Bytes → Buffer → Buffer
append_byte_slice v b = append_bytes v (append_uint32 (length v % 2 ^ 32) b)

-- `PutLength`.
unfoldable pub put_length : ℕ → Buffer → Buffer
put_length size b =
    let grown : Bytes =
      if ltb (length b.contents) 4
      then b.contents ++ replicate (4 - length b.contents) 0
      else b.contents in
    record b { contents = uint32_bytes (size % 2 ^ 32) ++ drop 4 grown }

-- `StartPacket`.
unfoldable pub start_packet : ℕ → ℕ → Buffer → Buffer
start_packet packet_type reqid b =
    append_uint32 reqid (append_uint8 packet_type (new_buffer (replicate 4 0)))

-- `Packet`: the header and the payload.
unfoldable pub finish_packet : Bytes → Buffer → Bytes × Bytes
finish_packet payload b =
    ((put_length (length b.contents - 4 + length payload) b).contents, payload)

-- The buffer that `MarshalPacket` uses: the slice that it is given, with its capacity, or a new one.
unfoldable pub marshal_buffer : Bytes → ℕ → ℕ → Buffer
marshal_buffer b capacity size = if ltb capacity 9 then new_marshal_buffer size else new_buffer b

-- `binary.BigEndian`: the number that some bytes spell, behind those read so far.
unfoldable pub big_endian : ℕ → Bytes → ℕ
big_endian n [] = n
big_endian n (b ∷ bs) = big_endian (n * 256 + b) bs

-- The body of `ConsumeUint8`, `ConsumeUint16`, `ConsumeUint32` and `ConsumeUint64`, for a number of
-- so many bytes.
unfoldable pub consume : ℕ → Buffer → ℕ × Buffer
consume n b = elim b.err [
  | some e ↦ (0, b)
  | none ↦
      if ltb (rest_len b) n
      then (0, record b { off = length b.contents; err = some short_packet })
      else (big_endian 0 (take n (rest_bytes b)), record b { off = b.off + n })
]

unfoldable pub consume_uint8 : Buffer → ℕ × Buffer
consume_uint8 b = consume 1 b

unfoldable pub consume_bool : Buffer → Bool × Buffer
consume_bool b = let (v, b') = consume_uint8 b in (not (v == 0), b')

unfoldable pub consume_uint16 : Buffer → ℕ × Buffer
consume_uint16 b = consume 2 b

unfoldable pub consume_uint32 : Buffer → ℕ × Buffer
consume_uint32 b = consume 4 b

-- `ConsumeCount`, with a 64-bit int.
unfoldable pub consume_count : Buffer → ℕ × Buffer
consume_count b = consume_uint32 b

unfoldable pub consume_uint64 : Buffer → ℕ × Buffer
consume_uint64 b = consume 8 b

unfoldable pub consume_slice : ℕ → Buffer → Bytes × Buffer
consume_slice len b = elim b.err [
  | some e ↦ ([], b)
  | none ↦
      if ltb (rest_len b) len
      then ([], record b { off = length b.contents; err = some short_packet })
      else (take len (rest_bytes b), record b { off = b.off + len })
]

-- `ConsumeByteSlice` and `ConsumeString`.
unfoldable pub consume_byte_slice : Buffer → Bytes × Buffer
consume_byte_slice b = let (len, b') = consume_uint32 b in consume_slice len b'

-- `ConsumeByteSliceCopy`.
unfoldable pub consume_byte_slice_copy : Bytes → Buffer → Bytes × Buffer
consume_byte_slice_copy hint b =
    let (d, b') = consume_byte_slice b in
    let grown : Bytes = hint ++ replicate (length d - length hint) 0 in
    (take (length d) (d ++ drop (length d) grown), b')

-- `Buffer.MarshalBinary` and `Buffer.UnmarshalBinary`.
unfoldable pub clone_contents : Buffer → Bytes
clone_contents b = b.contents

unfoldable pub load_contents : Bytes → Buffer → Buffer
load_contents d b = record b { contents = d; off = 0 }
