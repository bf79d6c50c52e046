-- ===== src/Wire/RoundTrip.antt =====
-- Decoding what was encoded.
use sftp_go.Base.{
  ℕ, ◌+◌, ◌*◌, ◌/◌, ◌%◌, ◌^◌, ◌<◌, ◌≡◌, refl, arith, [], ◌++◌, append_assoc, length, length-append,
  take-append, drop-append, ltb, if◌then◌else◌,
}
use sftp_go.Base.Bits.{bit_or_disjoint}
use sftp_go.Wire.{
  Bytes, ok, uint32_bytes, marshal_uint32, marshal_uint64, marshal_string, unmarshal_uint32,
  unmarshal_uint32_safe, unmarshal_uint64, unmarshal_uint64_safe, unmarshal_string_safe, split_at,
}

-- What the encoders append.
unfoldable pub uint64_bytes : ℕ → Bytes
uint64_bytes v = uint32_bytes (v / 2 ^ 32 % 2 ^ 32) ++ uint32_bytes (v % 2 ^ 32)

pub string_bytes : Bytes → Bytes
string_bytes s = uint32_bytes (length s % 2 ^ 32) ++ s

pub marshal_uint32_lem : (b : Bytes) (v : ℕ) → marshal_uint32 b v ≡ b ++ uint32_bytes v
unfolding marshal_uint32
marshal_uint32_lem b v = refl

pub marshal_uint64_lem : (b : Bytes) (v : ℕ) → marshal_uint64 b v ≡ b ++ uint64_bytes v
unfolding marshal_uint64 marshal_uint32 uint64_bytes
marshal_uint64_lem b v = append_assoc b _ _

pub marshal_string_lem : (b s : Bytes) → marshal_string b s ≡ b ++ string_bytes s
unfolding marshal_string marshal_uint32 string_bytes
marshal_string_lem b s = append_assoc b _ s

pub unmarshal_uint32_bytes :
    (v : ℕ) (rest : Bytes) → v < 2 ^ 32 → unmarshal_uint32 (uint32_bytes v ++ rest) ≡ ok v rest
unfolding uint32_bytes unmarshal_uint32
unmarshal_uint32_bytes v rest h = ground (
  arith,
  bit_or_disjoint 8 (v / 2 ^ 8 % 256) (v % 256),
  bit_or_disjoint 16 (v / 2 ^ 16 % 256) (v / 2 ^ 8 % 256 * 2 ^ 8 + v % 256),
  bit_or_disjoint 24 (v / 2 ^ 24 % 256)
      (v / 2 ^ 16 % 256 * 2 ^ 16 + (v / 2 ^ 8 % 256 * 2 ^ 8 + v % 256)),
)

pub length-uint32_bytes : (v : ℕ) → length (uint32_bytes v) ≡ 4
unfolding uint32_bytes
length-uint32_bytes v = refl

pub unmarshal_uint32_safe_bytes :
    (v : ℕ) (rest : Bytes) → v < 2 ^ 32 → unmarshal_uint32_safe (uint32_bytes v ++ rest) ≡ ok v rest
unfolding unmarshal_uint32_safe
unmarshal_uint32_safe_bytes v rest h = ground (
  arith,
  unmarshal_uint32_bytes v rest h,
  length-append (uint32_bytes v) rest,
  length-uint32_bytes v,
)

pub length-uint64_bytes : (v : ℕ) → length (uint64_bytes v) ≡ 8
unfolding uint64_bytes uint32_bytes
length-uint64_bytes v = refl

unmarshal_uint64_bytes :
    (v : ℕ) (rest : Bytes) → v < 2 ^ 64 → unmarshal_uint64 (uint64_bytes v ++ rest) ≡ ok v rest
unfolding unmarshal_uint64 uint64_bytes
unmarshal_uint64_bytes v rest h =
    simp (append_assoc, unmarshal_uint32_bytes, high_fits, low_fits)
      (ground (arith, bit_or_disjoint 32 (v / 2 ^ 32 % 2 ^ 32) (v % 2 ^ 32)))
  where
    high_fits : v / 2 ^ 32 % 2 ^ 32 < 2 ^ 32
    high_fits = omega arith

    low_fits : v % 2 ^ 32 < 2 ^ 32
    low_fits = omega arith

pub unmarshal_uint64_safe_bytes :
    (v : ℕ) (rest : Bytes) → v < 2 ^ 64 → unmarshal_uint64_safe (uint64_bytes v ++ rest) ≡ ok v rest
unfolding unmarshal_uint64_safe
unmarshal_uint64_safe_bytes v rest h = ground (
  arith,
  unmarshal_uint64_bytes v rest h,
  length-append (uint64_bytes v) rest,
  length-uint64_bytes v,
)

pub length-string_bytes : (s : Bytes) → length (string_bytes s) ≡ 4 + length s
unfolding string_bytes
length-string_bytes s = omega (
  arith,
  length-append (uint32_bytes (length s % 2 ^ 32)) s,
  length-uint32_bytes (length s % 2 ^ 32),
)

pub split_at_append : (s rest : Bytes) → split_at (length s) (s ++ rest) ≡ ok s rest
unfolding split_at
split_at_append s rest =
    ground (arith, length-append s rest, take-append s rest, drop-append s rest)

pub unmarshal_string_safe_bytes :
    (s rest : Bytes)
    → length s < 2 ^ 32
    → unmarshal_string_safe (string_bytes s ++ rest) ≡ ok s rest
unfolding unmarshal_string_safe string_bytes
unmarshal_string_safe_bytes s rest h =
    let same : length s % 2 ^ 32 ≡ length s = omega arith in
    rw (same, append_assoc, unmarshal_uint32_safe_bytes (length s) (s ++ rest) h)
      (ground (arith, length-append s rest, split_at_append s rest))

-- What the encoders append is what the checked decoders read: the rules of every round trip.
pub ruleset encoded = (marshal_uint32_lem, marshal_uint64_lem, marshal_string_lem, append_assoc)

pub ruleset decoded =
    (unmarshal_uint32_safe_bytes, unmarshal_uint64_safe_bytes, unmarshal_string_safe_bytes)
