-- ===== src/Response/RoundTrip.antt =====
-- Responses decoded again.
use sftp_go.Base.{
  ℕ, ◌^◌, ◌<◌, ◌≡◌, refl, arith, [], ◌++◌, length, append-nil, if◌then◌else◌, ◌==◌, drop,
}
use mathlib.Core.Path.{subst}
use sftp_go.Wire.{Bytes, ok, uint32_bytes, split_at}
use sftp_go.Wire.RoundTrip.{
  encoded, decoded, unmarshal_uint32_bytes, unmarshal_string_safe_bytes, string_bytes,
  split_at_append,
}
use sftp_go.Response.{
  StatusError, content, marshal_status, marshal_status_packet, marshal_data, reported,
  unexpected_id, string_or_empty, unmarshal_status, unmarshal_data,
}

-- What follows the length and the type of a status packet.
pub status_body :
    (id : ℕ) (e : StatusError)
    → drop 5 (marshal_status_packet id e)
      ≡ uint32_bytes id ++ (uint32_bytes e.code ++ (string_bytes e.msg ++ string_bytes e.lang))
unfolding marshal_status_packet marshal_status
status_body id e = simp encoded refl

string_or_empty_bytes :
    (s rest : Bytes) → length s < 2 ^ 32 → string_or_empty (string_bytes s ++ rest) ≡ (s, rest)
unfolding string_or_empty
string_or_empty_bytes s rest h = rw (string_or_empty, unmarshal_string_safe_bytes s rest h) refl

-- `unmarshalStatus` on the body of a status packet: the status that was sent when it is asked for
-- the packet's id, the pair of ids when it is asked for another; for fields that fit.
pub unmarshal_status-marshal_status_packet :
    (id asked : ℕ) (e : StatusError)
    → id < 2 ^ 32
    → e.code < 2 ^ 32
    → length e.msg < 2 ^ 32
    → length e.lang < 2 ^ 32
    → unmarshal_status asked (drop 5 (marshal_status_packet id e))
      ≡ (if id == asked then reported e else unexpected_id asked id)
unfolding unmarshal_status
unmarshal_status-marshal_status_packet id asked e hi hc hm hl =
    let last = string_or_empty_bytes e.lang [] hl in
    let lang =
      subst (λ b. string_or_empty b ≡ (e.lang, [])) (append-nil (string_bytes e.lang)) last in
    rw
      (
        status_body id e,
        unmarshal_status,
        unmarshal_uint32_bytes id _ hi,
        unmarshal_uint32_bytes e.code _ hc,
        string_or_empty_bytes e.msg _ hm,
        lang,
      )
      refl

-- `UnmarshalBinary` of a data packet reads what `marshalPacket` wrote; for a length that is that of
-- the data.
pub unmarshal_data-marshal_data :
    (id : ℕ) (d : Bytes)
    → id < 2 ^ 32
    → length d < 2 ^ 32
    → unmarshal_data (drop 5 ((marshal_data id (length d) d).0 ++ (marshal_data id (length d) d).1))
      ≡ ok (content id (length d) d) []
unfolding unmarshal_data marshal_data
unmarshal_data-marshal_data id d hi hd = simp (encoded, decoded, hi, hd) (ground (arith, all))
  where
    all : split_at (length d) d ≡ ok d []
    all = subst (λ b. split_at (length d) b ≡ ok d []) (append-nil d) (split_at_append d [])
