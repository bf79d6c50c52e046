-- ===== src/Packet/Decode/Total.antt =====
-- No input makes a decoder panic: every index and every slice is guarded by a length check.
use sftp_go.Base.{
  ℕ, zero, suc, ◌+◌, ◌≤◌, ◌≢◌, arith, [], ◌∷◌, ◌++◌, length, ltb, if◌then◌else◌, Bool, true, false,
  Bool-cases, inl, inr, List, refl, ◌%◌, ◌^◌,
}
use sftp_go.Wire.Total.{
  Takes, unmarshal_uint32_safe-Takes, unmarshal_uint64_safe-Takes, unmarshal_string_safe-Takes,
  split_at-Takes,
}
use sftp_go.Wire.{
  Error, short_packet, Bytes, Read, ok, fail, panic, unmarshal_uint32_safe, unmarshal_uint64_safe,
  split_at, unmarshal_string_safe,
}
use sftp_go.Packet.{Packet, Specific, ExtensionPair}
use sftp_go.Packet.Decode.{
  Decoded, done, partly, refused, panicked, decode, unmarshal_id_string, unmarshal_pairs,
  unmarshal_init, unmarshal_symlink, unmarshal_open, unmarshal_read, unmarshal_rename,
  unmarshal_write, unmarshal_mkdir, unmarshal_setstat, unmarshal_fsetstat, unmarshal_statvfs,
  unmarshal_posix_rename, unmarshal_hardlink, specific_into, unmarshal_extended, make_packet,
}

-- The steps after a read of `n` bytes do not panic, so the whole does not.
decode-ne-panicked {ℓ κ} :
    {A : Type ℓ} {P : Type κ} (n : ℕ) (b : Bytes) (r : Read A) (p : P) (k : A → Bytes → Decoded P)
    → Takes n b r
    → ((a : A) (rest : Bytes) → length rest + n ≤ length b → k a rest ≢ panicked)
    → decode r p k ≢ panicked
decode-ne-panicked n b (ok a rest) p k t h = h a rest t
decode-ne-panicked n b (fail e) p k t h = λ x. cc
decode-ne-panicked n b panic p k t h = elim t [ ]

after_uint32 {κ} :
    {P : Type κ} (b : Bytes) (p : P) (k : ℕ → Bytes → Decoded P)
    → ((a : ℕ) (rest : Bytes) → k a rest ≢ panicked)
    → decode (unmarshal_uint32_safe b) p k ≢ panicked
after_uint32 b p k h =
    decode-ne-panicked 4 b _ p k (unmarshal_uint32_safe-Takes b) (λ a rest _. h a rest)

after_uint64 {κ} :
    {P : Type κ} (b : Bytes) (p : P) (k : ℕ → Bytes → Decoded P)
    → ((a : ℕ) (rest : Bytes) → k a rest ≢ panicked)
    → decode (unmarshal_uint64_safe b) p k ≢ panicked
after_uint64 b p k h =
    decode-ne-panicked 8 b _ p k (unmarshal_uint64_safe-Takes b) (λ a rest _. h a rest)

after_string {κ} :
    {P : Type κ} (b : Bytes) (p : P) (k : Bytes → Bytes → Decoded P)
    → ((a : Bytes) (rest : Bytes) → k a rest ≢ panicked)
    → decode (unmarshal_string_safe b) p k ≢ panicked
after_string b p k h =
    decode-ne-panicked 4 b _ p k (unmarshal_string_safe-Takes b) (λ a rest _. h a rest)

done-ne-panicked {κ} : {P : Type κ} (p : P) → done p ≢ panicked
done-ne-panicked p x = cc

ruleset guarded = (after_uint32, after_uint64, after_string, done-ne-panicked)

unmarshal_id_string-ne-panicked :
    (p : ℕ → Bytes → Packet) (b : Bytes) → unmarshal_id_string p b ≢ panicked
unfolding unmarshal_id_string
unmarshal_id_string-ne-panicked p b = search guarded depth 8

unmarshal_symlink-ne-panicked : (b : Bytes) → unmarshal_symlink b ≢ panicked
unfolding unmarshal_symlink
unmarshal_symlink-ne-panicked b = search guarded depth 8

unmarshal_open-ne-panicked : (b : Bytes) → unmarshal_open b ≢ panicked
unfolding unmarshal_open
unmarshal_open-ne-panicked b = search guarded depth 8

unmarshal_read-ne-panicked : (b : Bytes) → unmarshal_read b ≢ panicked
unfolding unmarshal_read
unmarshal_read-ne-panicked b = search guarded depth 8

unmarshal_rename-ne-panicked : (b : Bytes) → unmarshal_rename b ≢ panicked
unfolding unmarshal_rename
unmarshal_rename-ne-panicked b = search guarded depth 8

unmarshal_mkdir-ne-panicked : (b : Bytes) → unmarshal_mkdir b ≢ panicked
unfolding unmarshal_mkdir
unmarshal_mkdir-ne-panicked b = search guarded depth 8

unmarshal_setstat-ne-panicked : (b : Bytes) → unmarshal_setstat b ≢ panicked
unfolding unmarshal_setstat
unmarshal_setstat-ne-panicked b = search guarded depth 8

unmarshal_fsetstat-ne-panicked : (b : Bytes) → unmarshal_fsetstat b ≢ panicked
unfolding unmarshal_fsetstat
unmarshal_fsetstat-ne-panicked b = search guarded depth 8

unmarshal_statvfs-ne-panicked : (b : Bytes) → unmarshal_statvfs b ≢ panicked
unfolding unmarshal_statvfs
unmarshal_statvfs-ne-panicked b = search guarded depth 8

unmarshal_posix_rename-ne-panicked : (b : Bytes) → unmarshal_posix_rename b ≢ panicked
unfolding unmarshal_posix_rename
unmarshal_posix_rename-ne-panicked b = search guarded depth 8

unmarshal_hardlink-ne-panicked : (b : Bytes) → unmarshal_hardlink b ≢ panicked
unfolding unmarshal_hardlink
unmarshal_hardlink-ne-panicked b = search guarded depth 8

-- Each round takes 8 bytes at least, so the fuel lasts.
unmarshal_pairs-ne-panicked :
    (fuel version : ℕ) (exts : List ExtensionPair) (b : Bytes)
    → length b ≤ fuel
    → unmarshal_pairs fuel version exts b ≢ panicked
unfolding unmarshal_pairs
unmarshal_pairs-ne-panicked fuel version exts [] h = λ x. cc
unmarshal_pairs-ne-panicked zero version exts (x ∷ xs) h = absurd (omega arith)
unmarshal_pairs-ne-panicked (suc fuel) version exts (x ∷ xs) h =
    decode-ne-panicked 4 (x ∷ xs) _ _ _ (unmarshal_string_safe-Takes (x ∷ xs)) λ name b1 h1.
      decode-ne-panicked 4 b1 _ _ _ (unmarshal_string_safe-Takes b1) λ value b2 h2.
        unmarshal_pairs-ne-panicked fuel version
          (exts ++ record { name = name; value = value } ∷ []) b2 (omega arith)

unmarshal_init-ne-panicked : (b : Bytes) → unmarshal_init b ≢ panicked
unfolding unmarshal_init
unmarshal_init-ne-panicked b =
    after_uint32 b _ _
      λ version b1. unmarshal_pairs-ne-panicked (length b1) version [] b1 (omega arith)

-- The slice `b[:p.Length]` is within bounds: the check before it reads `len(b)` as a uint32, which
-- is at most `len(b)`.
write_body-ne-panicked :
    (len : ℕ) (b : Bytes) (p q : Packet) (k : Bytes → Packet)
    → (if ltb (length b % 2 ^ 32) len
        then partly p short_packet
        else decode (split_at len b) q (λ content rest. done (k content)))
      ≢ panicked
write_body-ne-panicked len b p q k = elim (Bool-cases (ltb (length b % 2 ^ 32) len)) [
  | inl short ↦ rw short (λ x. cc)
  | inr long ↦
      rw long (
        decode-ne-panicked len b _ q _ (split_at-Takes len b (ground arith)) λ content rest h x. cc)
]

unmarshal_write-ne-panicked : (b : Bytes) → unmarshal_write b ≢ panicked
unfolding unmarshal_write
unmarshal_write-ne-panicked b = after_uint32 b _ _ λ id b1. after_string b1 _ _ λ handle b2.
    after_uint64 b2 _ _
      λ offset b3. after_uint32 b3 _ _ λ len b4. write_body-ne-panicked len b4 _ _ _

if-ne {ℓ} : {A : Type ℓ} (c : Bool) (x y z : A) → x ≢ z → y ≢ z → (if c then x else y) ≢ z
if-ne true x y z hx hy = hx
if-ne false x y z hx hy = hy

specific_into-ne-panicked :
    (id : ℕ) (request : Bytes) (d : Decoded Specific)
    → d ≢ panicked
    → specific_into id request d ≢ panicked
unfolding specific_into
specific_into-ne-panicked id request (done s) h x = cc
specific_into-ne-panicked id request (partly s e) h x = cc
specific_into-ne-panicked id request (refused e) h x = cc
specific_into-ne-panicked id request panicked h x = h refl

partly-ne-panicked {κ} : {P : Type κ} (p : P) (e : Error) → partly p e ≢ panicked
partly-ne-panicked p e x = cc

refused-ne-panicked : (e : Error) → ◌≢◌ {A = Decoded Packet} (refused e) panicked
refused-ne-panicked e x = cc

unmarshal_extended-ne-panicked : (b : Bytes) → unmarshal_extended b ≢ panicked
unfolding unmarshal_extended
unmarshal_extended-ne-panicked b = after_uint32 b _ _ λ id b1. after_string b1 _ _ λ request _.
    if-ne _ _ _ _ (specific_into-ne-panicked id request _ (unmarshal_statvfs-ne-panicked b)) (
      if-ne _ _ _ _ (specific_into-ne-panicked id request _ (unmarshal_posix_rename-ne-panicked b))
        (if-ne _ _ _ _ (specific_into-ne-panicked id request _ (unmarshal_hardlink-ne-panicked b))
          (partly-ne-panicked _ _)))

ruleset decoders = (
  unmarshal_init-ne-panicked, unmarshal_id_string-ne-panicked, unmarshal_open-ne-panicked,
  unmarshal_read-ne-panicked, unmarshal_write-ne-panicked, unmarshal_setstat-ne-panicked,
  unmarshal_fsetstat-ne-panicked, unmarshal_mkdir-ne-panicked, unmarshal_rename-ne-panicked,
  unmarshal_symlink-ne-panicked, unmarshal_extended-ne-panicked, refused-ne-panicked, if-ne,
)

-- `makePacket` panics on no type byte and no bytes behind it: it gives a packet, a packet as far as
-- decoded with an error, or an error.
pub make_packet-ne-panicked : (t : ℕ) (b : Bytes) → make_packet t b ≢ panicked
unfolding make_packet
make_packet-ne-panicked t b = search decoders depth 30
