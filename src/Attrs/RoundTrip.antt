-- ===== src/Attrs/RoundTrip.antt =====
-- Reading back the attributes that were written.
use sftp_go.Base.{
  ℕ, ◌%◌, ◌^◌, ◌<◌, ◌≡◌, refl, ◌∙◌, arith, Bool, true, false, List, [], ◌∷◌, ◌++◌, append_assoc,
  append-nil, length, All, if◌then◌else◌,
}
use sftp_go.Base.Bits.{bit_and_pow}
use native.Mathlib.Nat.{one-le-pow}
use sftp_go.Wire.{
  Bytes, Read, ok, and_then, uint32_bytes, marshal_string, unmarshal_uint32_safe,
  unmarshal_uint64_safe,
}
use sftp_go.Wire.RoundTrip.{
  uint64_bytes, string_bytes, marshal_uint32_lem, marshal_uint64_lem, encoded, decoded,
  unmarshal_uint32_safe_bytes, unmarshal_uint64_safe_bytes,
}
use sftp_go.Attrs.{
  StatExtended, FileStat, has_any, has_all, attr_size, attr_uidgid, attr_permissions,
  attr_acmodtime, attr_extended, marshal_extended, marshal_file_stat, unmarshal_size,
  unmarshal_pair, unmarshal_uidgid, unmarshal_permissions, unmarshal_acmodtime, unmarshal_entries,
  unmarshal_extended, unmarshal_file_stat,
}

-- The encoder's and the decoder's tests of a one-bit flag agree.
has_all-has_any : (k flags : ℕ) → has_all flags (2 ^ k) ≡ has_any flags (2 ^ k)
has_all-has_any k flags = ground (arith, bit_and_pow k flags, one-le-pow k 2)

append_if {ℓ} :
    {A : Type ℓ} (c : Bool) (b x : List A) → (if c then b ++ x else b) ≡ b ++ (if c then x else [])
append_if true b x = refl
append_if false b x = rw append-nil

append_if_two {ℓ} :
    {A : Type ℓ} (c : Bool) (b x y : List A)
    → (if c then (b ++ x) ++ y else b) ≡ b ++ (if c then x ++ y else [])
append_if_two true b x y = append_assoc b x y
append_if_two false b x y = rw append-nil

-- Every number fits its field, and so do the lengths.
abbrev pub ExtendedFits : StatExtended → Type 0
ExtendedFits e = (length e.ext_type < 2 ^ 32) × (length e.ext_data < 2 ^ 32)

pub record Fits (fs : FileStat) : Type 0 where
  pub size_fits : fs.size < 2 ^ 64
  pub mode_fits : fs.mode < 2 ^ 32
  pub mtime_fits : fs.mtime < 2 ^ 32
  pub atime_fits : fs.atime < 2 ^ 32
  pub uid_fits : fs.uid < 2 ^ 32
  pub gid_fits : fs.gid < 2 ^ 32
  pub count_fits : length fs.extended < 2 ^ 32
  pub extended_fits : All ExtendedFits fs.extended

-- The fields that the flags select; the others are zero.
unfoldable pub restrict : ℕ → FileStat → FileStat
restrict flags fs = record {
  size = if has_any flags attr_size then fs.size else 0;
  mode = if has_any flags attr_permissions then fs.mode else 0;
  mtime = if has_any flags attr_acmodtime then fs.mtime else 0;
  atime = if has_any flags attr_acmodtime then fs.atime else 0;
  uid = if has_any flags attr_uidgid then fs.uid else 0;
  gid = if has_any flags attr_uidgid then fs.gid else 0;
  extended = if has_any flags attr_extended then fs.extended else [];
}

entries_bytes : List StatExtended → Bytes
entries_bytes [] = []
entries_bytes (e ∷ es) = string_bytes e.ext_type ++ (string_bytes e.ext_data ++ entries_bytes es)

extended_bytes : List StatExtended → Bytes
extended_bytes es = uint32_bytes (length es % 2 ^ 32) ++ entries_bytes es

marshal_extended_lem :
    (b : Bytes) (es : List StatExtended) → marshal_extended b es ≡ b ++ entries_bytes es
unfolding marshal_extended entries_bytes
marshal_extended_lem b [] = rw append-nil
marshal_extended_lem b (e ∷ es) =
    marshal_extended_lem (marshal_string (marshal_string b e.ext_type) e.ext_data) es ∙ simp encoded

-- What `marshal_file_stat` appends.
pub attr_bytes : ℕ → FileStat → Bytes
attr_bytes flags fs =
    (if has_any flags attr_size then uint64_bytes fs.size else [])
    ++ ((if has_any flags attr_uidgid then uint32_bytes fs.uid ++ uint32_bytes fs.gid else [])
        ++ ((if has_any flags attr_permissions then uint32_bytes fs.mode else [])
            ++ ((if has_any flags attr_acmodtime
                  then uint32_bytes fs.atime ++ uint32_bytes fs.mtime
                  else [])
                ++ (if has_any flags attr_extended then extended_bytes fs.extended else []))))

pub marshal_file_stat_lem :
    (b : Bytes) (flags : ℕ) (fs : FileStat)
    → marshal_file_stat b flags fs ≡ b ++ attr_bytes flags fs
unfolding marshal_file_stat attr_bytes extended_bytes
marshal_file_stat_lem b flags fs =
    simp (marshal_uint32_lem, marshal_uint64_lem, marshal_extended_lem, append_if, append_if_two)
      (simp append_assoc)

first_if :
    (c : Bool) (a b d e : ℕ) → (if◌then◌else◌ {A = ℕ × ℕ} c (a, b) (d, e)).0 ≡ (if c then a else d)
first_if true a b d e = refl
first_if false a b d e = refl

second_if :
    (c : Bool) (a b d e : ℕ) → (if◌then◌else◌ {A = ℕ × ℕ} c (a, b) (d, e)).1 ≡ (if c then b else e)
second_if true a b d e = refl
second_if false a b d e = refl

-- One block: if the tests agree, the field that the encoder wrote is read, or its zero value kept.
block {ℓ} :
    {A : Type ℓ} (read : Bytes → Read A) (c d : Bool) (x z : A) (enc rest : Bytes)
    → c ≡ d
    → read (enc ++ rest) ≡ ok x rest
    → (if c then read ((if d then enc else []) ++ rest) else ok z ((if d then enc else []) ++ rest))
      ≡ ok (if d then x else z) rest
block read c true x z enc rest e h = rw e h
block read c false x z enc rest e h = rw e

unmarshal_pair_lem :
    (x y : ℕ) (rest : Bytes)
    → x < 2 ^ 32
    → y < 2 ^ 32
    → unmarshal_pair ((uint32_bytes x ++ uint32_bytes y) ++ rest) ≡ ok (x, y) rest
unfolding unmarshal_pair
unmarshal_pair_lem x y rest hx hy = simp (append_assoc, decoded, hx, hy)

unmarshal_entries_lem :
    (es : List StatExtended) (rest : Bytes)
    → All ExtendedFits es
    → unmarshal_entries (length es) (entries_bytes es ++ rest) ≡ ok es rest
unfolding unmarshal_entries entries_bytes
unmarshal_entries_lem [] rest h = refl
unmarshal_entries_lem (e ∷ es) rest (he, hes) =
    let ht : length e.ext_type < 2 ^ 32 = he.0 in
    let hd : length e.ext_data < 2 ^ 32 = he.1 in
    simp (append_assoc, decoded, ht, hd, unmarshal_entries_lem es rest hes)

counted_entries :
    (es : List StatExtended) (rest : Bytes)
    → length es < 2 ^ 32
    → All ExtendedFits es
    → and_then (unmarshal_uint32_safe (extended_bytes es ++ rest)) unmarshal_entries ≡ ok es rest
unfolding extended_bytes
counted_entries es rest h hes =
    let same : length es % 2 ^ 32 ≡ length es = omega arith in
    simp (same, append_assoc, decoded, h) (unmarshal_entries_lem es rest hes)

-- The five blocks under one flag word, for attributes that fit.
module _ (flags : ℕ) (fs : FileStat) (f : Fits fs) where
  size_block :
      (rest : Bytes)
      → unmarshal_size flags
          ((if has_any flags attr_size then uint64_bytes fs.size else []) ++ rest)
        ≡ ok (if has_any flags attr_size then fs.size else 0) rest
  unfolding unmarshal_size
  size_block rest =
      block unmarshal_uint64_safe _ _ fs.size 0 _ rest (has_all-has_any 0 flags)
        (unmarshal_uint64_safe_bytes fs.size rest f.size_fits)

  uidgid_block :
      (rest : Bytes)
      → unmarshal_uidgid flags (
          (if has_any flags attr_uidgid then uint32_bytes fs.uid ++ uint32_bytes fs.gid else [])
          ++ rest)
        ≡ ok (if has_any flags attr_uidgid then (fs.uid, fs.gid) else (0, 0)) rest
  unfolding unmarshal_uidgid
  uidgid_block rest =
      block unmarshal_pair _ _ (fs.uid, fs.gid) (0, 0) _ rest (has_all-has_any 1 flags)
        (unmarshal_pair_lem fs.uid fs.gid rest f.uid_fits f.gid_fits)

  permissions_block :
      (rest : Bytes)
      → unmarshal_permissions flags
          ((if has_any flags attr_permissions then uint32_bytes fs.mode else []) ++ rest)
        ≡ ok (if has_any flags attr_permissions then fs.mode else 0) rest
  unfolding unmarshal_permissions
  permissions_block rest =
      block unmarshal_uint32_safe _ _ fs.mode 0 _ rest (has_all-has_any 2 flags)
        (unmarshal_uint32_safe_bytes fs.mode rest f.mode_fits)

  acmodtime_block :
      (rest : Bytes)
      → unmarshal_acmodtime flags (
          (if has_any flags attr_acmodtime
            then uint32_bytes fs.atime ++ uint32_bytes fs.mtime
            else [])
          ++ rest)
        ≡ ok (if has_any flags attr_acmodtime then (fs.atime, fs.mtime) else (0, 0)) rest
  unfolding unmarshal_acmodtime
  acmodtime_block rest =
      block unmarshal_pair _ _ (fs.atime, fs.mtime) (0, 0) _ rest (has_all-has_any 3 flags)
        (unmarshal_pair_lem fs.atime fs.mtime rest f.atime_fits f.mtime_fits)

  extended_block :
      (rest : Bytes)
      → unmarshal_extended flags
          ((if has_any flags attr_extended then extended_bytes fs.extended else []) ++ rest)
        ≡ ok (if has_any flags attr_extended then fs.extended else []) rest
  unfolding unmarshal_extended
  extended_block rest =
      block (λ b. and_then (unmarshal_uint32_safe b) unmarshal_entries) _ _ fs.extended [] _ rest
        (has_all-has_any 31 flags) (counted_entries fs.extended rest f.count_fits f.extended_fits)

  unmarshal_attr_bytes :
      (rest : Bytes)
      → unmarshal_file_stat flags (attr_bytes flags fs ++ rest) ≡ ok (restrict flags fs) rest
  unfolding unmarshal_file_stat attr_bytes restrict
  unmarshal_attr_bytes rest = simp (
    append_assoc, size_block, uidgid_block, permissions_block, acmodtime_block, extended_block,
    first_if, second_if,
  )

-- Decoding the attribute block that `marshalFileStat` wrote under some flags gives the fields that
-- the flags select and zero elsewhere, and leaves what follows; for numbers and lengths that fit
-- their fields.
pub unmarshal_file_stat-marshal_file_stat :
    (flags : ℕ) (fs : FileStat) (rest : Bytes)
    → Fits fs
    → unmarshal_file_stat flags (marshal_file_stat [] flags fs ++ rest)
      ≡ ok (restrict flags fs) rest
unmarshal_file_stat-marshal_file_stat flags fs rest f =
    rw marshal_file_stat_lem (unmarshal_attr_bytes flags fs f rest)
