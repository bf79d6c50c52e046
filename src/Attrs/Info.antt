-- ===== src/Attrs/Info.antt =====
-- attrs.go and attrs_unix.go, `fileStatFromInfo`: the attributes of an `os.FileInfo`, and how they
-- travel.
use sftp_go.Base.{
  ℕ, ◌%◌, ◌^◌, ◌<◌, ◌≡◌, refl, sym, ap, ◌∙◌, arith, bit_or, Option, none, some, List, [], ◌∷◌, ◌++◌,
  append-nil,
}
use sftp_go.Wire.{Bytes, ok, and_then, uint32_bytes, marshal_uint32, unmarshal_uint32_safe}
use sftp_go.Wire.RoundTrip.{marshal_uint32_lem, unmarshal_uint32_safe_bytes}
use sftp_go.Modes.{from_file_mode}
use sftp_go.Value.{marshal_file_info}
use sftp_go.Attrs.{
  attr_size, attr_uidgid, attr_permissions, attr_acmodtime, attr_extended, StatExtended, FileStat,
  marshal_file_stat, unmarshal_file_stat, unmarshal_attrs,
}
use sftp_go.Attrs.RoundTrip.{
  Fits, restrict, attr_bytes, marshal_file_stat_lem, unmarshal_file_stat-marshal_file_stat,
}

-- What `fileStatFromInfo` asks of an `os.FileInfo`: its size and its time in seconds, both as
-- a uint64, its mode, the user and group of a `*syscall.Stat_t` in `Sys()`, and the answers of
-- `FileInfoUidGid` and `FileInfoExtendedData` where it implements them.
pub record FileInfo : Type 0 where
  pub info_size : ℕ
  pub info_mode : ℕ
  pub mod_time : ℕ
  pub sys : Option (ℕ × ℕ)
  pub uid_gid : Option (ℕ × ℕ)
  pub extended_data : Option (List StatExtended)

-- `fileStatFromInfoOs`, and the same for `FileInfoUidGid`.
abbrev pub with_owner : Option (ℕ × ℕ) → ℕ × FileStat → ℕ × FileStat
with_owner none r = r
with_owner (some (uid, gid)) (flags, fs) =
    (bit_or flags attr_uidgid, record fs { uid = uid; gid = gid })

abbrev pub with_extended : Option (List StatExtended) → ℕ × FileStat → ℕ × FileStat
with_extended none r = r
with_extended (some []) (flags, fs) = (flags, record fs { extended = [] })
with_extended (some (e ∷ es)) (flags, fs) =
    (bit_or flags attr_extended, record fs { extended = e ∷ es })

-- `fileStatFromInfo`.
unfoldable pub file_stat_from_info : FileInfo → ℕ × FileStat
file_stat_from_info fi = with_extended fi.extended_data (
    with_owner fi.uid_gid (
      with_owner fi.sys (
        bit_or (bit_or attr_size attr_permissions) attr_acmodtime,
        record {
          size = fi.info_size;
          mode = from_file_mode fi.info_mode;
          mtime = fi.mod_time % 2 ^ 32;
          atime = fi.mod_time % 2 ^ 32;
          uid = 0;
          gid = 0;
          extended = [];
        },
      )))

-- The flags select every field that is not zero, and fit a uint32.
abbrev Whole : ℕ × FileStat → Type 0
Whole (flags, fs) = (restrict flags fs ≡ fs) × (flags < 2 ^ 32)

with_extended-Whole :
    (owner other : Option (ℕ × ℕ)) (ext : Option (List StatExtended)) (n m t : ℕ)
    → Whole (
        with_extended ext (
          with_owner owner (
            with_owner other (
              0xd,
              record { size = n; mode = m; mtime = t; atime = t; uid = 0; gid = 0; extended = [] },
            ))))
unfolding restrict
with_extended-Whole none none none n m t = (refl, omega arith)
with_extended-Whole none none (some []) n m t = (refl, omega arith)
with_extended-Whole none none (some (e ∷ es)) n m t = (refl, omega arith)
with_extended-Whole none (some o) none n m t = (refl, omega arith)
with_extended-Whole none (some o) (some []) n m t = (refl, omega arith)
with_extended-Whole none (some o) (some (e ∷ es)) n m t = (refl, omega arith)
with_extended-Whole (some o) none none n m t = (refl, omega arith)
with_extended-Whole (some o) none (some []) n m t = (refl, omega arith)
with_extended-Whole (some o) none (some (e ∷ es)) n m t = (refl, omega arith)
with_extended-Whole (some o) (some p) none n m t = (refl, omega arith)
with_extended-Whole (some o) (some p) (some []) n m t = (refl, omega arith)
with_extended-Whole (some o) (some p) (some (e ∷ es)) n m t = (refl, omega arith)

-- The block that `marshalFileInfo` writes is read back when the flags select every field.
unmarshal_attrs-Whole :
    (flags : ℕ) (fs : FileStat)
    → Fits fs
    → Whole (flags, fs)
    → unmarshal_attrs (marshal_file_info [] flags fs) ≡ ok fs []
unfolding unmarshal_attrs marshal_file_info
unmarshal_attrs-Whole flags fs fits (same, low) =
    let body : Bytes = marshal_file_stat [] flags fs in
    let wire : marshal_file_stat (marshal_uint32 [] flags) flags fs ≡ uint32_bytes flags ++ body =
      marshal_file_stat_lem (marshal_uint32 [] flags) flags fs
      ∙ ap (λ b. b ++ attr_bytes flags fs) (marshal_uint32_lem [] flags)
      ∙ ap (λ b. uint32_bytes flags ++ b) (sym (marshal_file_stat_lem [] flags fs)) in
    ap (λ b. and_then (unmarshal_uint32_safe b) unmarshal_file_stat) wire
    ∙ ap (λ r. and_then r unmarshal_file_stat) (unmarshal_uint32_safe_bytes flags body low)
    ∙ ap (unmarshal_file_stat flags) (sym (append-nil body))
    ∙ unmarshal_file_stat-marshal_file_stat flags fs [] fits
    ∙ ap (λ f. ok f []) same

-- The attributes that `marshalFileInfo` writes for a file come back from `unmarshalAttrs` whole: no
-- field is lost for want of its flag; for numbers and lengths that fit their fields.
pub unmarshal_attrs-marshal_file_info :
    (fi : FileInfo)
    → Fits (file_stat_from_info fi).1
    → unmarshal_attrs (marshal_file_info [] (file_stat_from_info fi).0 (file_stat_from_info fi).1)
      ≡ ok (file_stat_from_info fi).1 []
unfolding file_stat_from_info
unmarshal_attrs-marshal_file_info fi fits = unmarshal_attrs-Whole _ _ fits (
    with_extended-Whole fi.uid_gid fi.sys fi.extended_data fi.info_size
      (from_file_mode fi.info_mode) (fi.mod_time % 2 ^ 32))
