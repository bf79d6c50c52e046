-- ===== src/Packet/Decode/Ids.antt =====
-- The two ids of an extended packet: that of the packet and that of its specific part are read from
-- the same four bytes.
use sftp_go.Base.{ℕ, ◌≡◌, refl, Bool-cases, inl, inr, some, same_bytes}
use sftp_go.Wire.{Bytes, Read, ok, fail, panic, unmarshal_uint32_safe, unmarshal_string_safe}
use sftp_go.Packet.{Packet, Specific, extended, specific_id}
use sftp_go.Packet.Decode.{
  Decoded, done, partly, refused, panicked, decode, unmarshal_statvfs, unmarshal_posix_rename,
  unmarshal_hardlink, specific_into, unmarshal_extended, statvfs_name, posix_rename_name,
  hardlink_name,
}

-- The packet that the decoder left, complete or not, if it left one.
abbrev pub LeavesOnly : {P : Type 0} → (P → Type 0) → Decoded P → Type 0
LeavesOnly Q (done p) = Q p
LeavesOnly Q (partly p e) = Q p
LeavesOnly Q (refused e) = Unit {0}
LeavesOnly Q panicked = Unit {0}

-- An extended packet whose two parts have the same id.
abbrev pub SameId : Packet → Type 0
SameId (extended id request (some p)) = specific_id p ≡ id
SameId p = Unit {0}

decode-LeavesOnly :
    {A P : Type 0} (Q : P → Type 0) (r : Read A) (p : P) (k : A → Bytes → Decoded P)
    → Q p
    → ((a : A) (rest : Bytes) → r ≡ ok a rest → LeavesOnly Q (k a rest))
    → LeavesOnly Q (decode r p k)
decode-LeavesOnly Q (ok a rest) p k h n = n a rest refl
decode-LeavesOnly Q (fail e) p k h n = h
decode-LeavesOnly Q panic p k h n = tt

into-LeavesOnly :
    (id : ℕ) (request : Bytes) (d : Decoded Specific)
    → LeavesOnly (λ s. specific_id s ≡ id) d
    → LeavesOnly SameId (specific_into id request d)
unfolding specific_into
into-LeavesOnly id request (done s) h = h
into-LeavesOnly id request (partly s e) h = h
into-LeavesOnly id request (refused e) h = tt
into-LeavesOnly id request panicked h = tt

module _ (id : ℕ) (b rest : Bytes) (read : unmarshal_uint32_safe b ≡ ok id rest) where
  abbrev Same : Specific → Type 0
  Same s = specific_id s ≡ id

  statvfs_id : LeavesOnly Same (unmarshal_statvfs b)
  unfolding unmarshal_statvfs specific_id
  statvfs_id =
      rw (unmarshal_statvfs, read)
        (decode-LeavesOnly Same (unmarshal_string_safe rest) _ _ refl (λ request b2 _.
          decode-LeavesOnly Same (unmarshal_string_safe b2) _ _ refl (λ path b3 _. refl)))

  posix_rename_id : LeavesOnly Same (unmarshal_posix_rename b)
  unfolding unmarshal_posix_rename specific_id
  posix_rename_id =
      rw (unmarshal_posix_rename, read)
        (decode-LeavesOnly Same (unmarshal_string_safe rest) _ _ refl (λ request b2 _.
          decode-LeavesOnly Same (unmarshal_string_safe b2) _ _ refl (λ old b3 _.
            decode-LeavesOnly Same (unmarshal_string_safe b3) _ _ refl (λ new b4 _. refl))))

  hardlink_id : LeavesOnly Same (unmarshal_hardlink b)
  unfolding unmarshal_hardlink specific_id
  hardlink_id =
      rw (unmarshal_hardlink, read)
        (decode-LeavesOnly Same (unmarshal_string_safe rest) _ _ refl (λ request b2 _.
          decode-LeavesOnly Same (unmarshal_string_safe b2) _ _ refl (λ old b3 _.
            decode-LeavesOnly Same (unmarshal_string_safe b3) _ _ refl (λ new b4 _. refl))))

-- Whatever the bytes, an extended packet that `UnmarshalBinary` leaves, complete or not, has the
-- same id as its specific part.
pub unmarshal_extended-SameId : (b : Bytes) → LeavesOnly SameId (unmarshal_extended b)
unfolding unmarshal_extended
unmarshal_extended-SameId b =
    decode-LeavesOnly SameId (unmarshal_uint32_safe b) _ _ tt (λ id rest e.
      decode-LeavesOnly SameId (unmarshal_string_safe rest) _ _ tt (λ request b2 _.
        elim (Bool-cases (same_bytes request statvfs_name)) [
          | inl s ↦ rw s (into-LeavesOnly id request _ (statvfs_id id b rest e))
          | inr s ↦ elim (Bool-cases (same_bytes request posix_rename_name)) [
            | inl p ↦ rw (s, p) (into-LeavesOnly id request _ (posix_rename_id id b rest e))
            | inr p ↦ elim (Bool-cases (same_bytes request hardlink_name)) [
              | inl h ↦ rw (s, p, h) (into-LeavesOnly id request _ (hardlink_id id b rest e))
              | inr h ↦ rw (s, p, h) tt
            ]
          ]
        ]))
