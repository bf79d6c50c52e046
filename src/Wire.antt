-- ===== src/Wire.antt =====
-- packet.go: the encoding of numbers and strings, and the checked and unchecked decoders.
-- A byte slice and a Go string are a list of numbers, each a byte.
pub mod RoundTrip
pub mod Total
use sftp_go.Base.{
  ℕ, ◌+◌, ◌*◌, ◌/◌, ◌%◌, ◌^◌, bit_or, List, [], ◌∷◌, ◌++◌, length, take, drop, ltb, if◌then◌else◌,
}

abbrev pub Bytes : Type 0
Bytes = List ℕ

-- The errors that the decoders report.
pub data Error : Type 0 where
  short_packet long_packet unknown_extended_packet unhandled_packet_type : Error

-- What a decoder returns: a value with the bytes behind it, an error, or a run-time panic (an index
-- out of range).
pub data Read {ℓ} (A : Type ℓ) : Type ℓ where
  ok : A → Bytes → Read A
  fail : Error → Read A
  panic : Read A

-- The steps after a successful read.
abbrev pub and_then {ℓ κ} : {A : Type ℓ} {B : Type κ} → Read A → (A → Bytes → Read B) → Read B
and_then (ok a b) k = k a b
and_then (fail e) k = fail e
and_then panic k = panic

-- `byte(v >> k)` for k = 24, 16, 8, 0.
unfoldable pub uint32_bytes : ℕ → Bytes
uint32_bytes v = v / 2 ^ 24 % 256 ∷ v / 2 ^ 16 % 256 ∷ v / 2 ^ 8 % 256 ∷ v % 256 ∷ []

unfoldable pub marshal_uint32 : Bytes → ℕ → Bytes
marshal_uint32 b v = b ++ uint32_bytes v

unfoldable pub marshal_uint64 : Bytes → ℕ → Bytes
marshal_uint64 b v = marshal_uint32 (marshal_uint32 b (v / 2 ^ 32 % 2 ^ 32)) (v % 2 ^ 32)

unfoldable pub marshal_string : Bytes → Bytes → Bytes
marshal_string b v = marshal_uint32 b (length v % 2 ^ 32) ++ v

unfoldable pub unmarshal_uint32 : Bytes → Read ℕ
unmarshal_uint32 (b0 ∷ b1 ∷ b2 ∷ b3 ∷ rest) =
    ok (bit_or (bit_or (bit_or b3 (b2 * 2 ^ 8)) (b1 * 2 ^ 16)) (b0 * 2 ^ 24)) rest
unmarshal_uint32 _ = panic

unfoldable pub unmarshal_uint32_safe : Bytes → Read ℕ
unmarshal_uint32_safe b = if ltb (length b) 4 then fail short_packet else unmarshal_uint32 b

unfoldable pub unmarshal_uint64 : Bytes → Read ℕ
unmarshal_uint64 b =
    and_then (unmarshal_uint32 b)
      λ h b'. and_then (unmarshal_uint32 b') λ l b''. ok (bit_or l (h * 2 ^ 32)) b''

unfoldable pub unmarshal_uint64_safe : Bytes → Read ℕ
unmarshal_uint64_safe b = if ltb (length b) 8 then fail short_packet else unmarshal_uint64 b

-- `b[:n]` and `b[n:]`, which panic where the slice is shorter.
unfoldable pub split_at : ℕ → Bytes → Read Bytes
split_at n b = if ltb (length b) n then panic else ok (take n b) (drop n b)

unfoldable pub unmarshal_string : Bytes → Read Bytes
unmarshal_string b = and_then (unmarshal_uint32 b) split_at

unfoldable pub unmarshal_string_safe : Bytes → Read Bytes
unmarshal_string_safe b =
    and_then (unmarshal_uint32_safe b)
      λ n b'. if ltb (length b') n then fail short_packet else split_at n b'
