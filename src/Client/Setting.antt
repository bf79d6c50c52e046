-- ===== src/Client/Setting.antt =====
-- client.go: the methods of `Client` and `File` that change attributes. Numbers stand as `uint32` and
-- `uint64` values, as the methods convert them.
pub mod Agrees
use sftp_go.Base.{ℕ, Option, some, List, [], ◌∷◌, bit_and, bit_or, if◌then◌else◌}
use sftp_go.Wire.{Bytes}
use sftp_go.Attrs.{
  StatExtended, FileStat, has_any, attr_size, attr_uidgid, attr_permissions, attr_acmodtime,
  attr_extended,
}
use sftp_go.Value.{compound, field, end, uint32, uint64}
use sftp_go.Modes.Os
use sftp_go.Packet.{AttrsField, file_stat, other}
use sftp_go.Client.{ClientError, is_closed, Client, Sender}
use sftp_go.Client.Calls.{setstat, fsetstat, close}

abbrev Result : Type 0 → Type 0
Result W = Option (Option ClientError) × Client W

-- `toChmodPerm`.
unfoldable pub to_chmod_perm : ℕ → ℕ
to_chmod_perm m =
    let perm0 = bit_and m (bit_or 0x1ff 0xe00) in
    let perm1 = if has_any m Os.mode_setuid then bit_or perm0 0x800 else perm0 in
    let perm2 = if has_any m Os.mode_setgid then bit_or perm1 0x400 else perm1 in
    if has_any m Os.mode_sticky then bit_or perm2 0x200 else perm2

-- A struct of two `uint32`.
abbrev pair_of : ℕ → ℕ → AttrsField
pair_of x y = other (compound (field (uint32 x) (field (uint32 y) end)))

unfoldable pub only_extended : List StatExtended → FileStat
only_extended es = record {
  size = 0;
  mode = 0;
  mtime = 0;
  atime = 0;
  uid = 0;
  gid = 0;
  extended = es;
}

unfoldable pub chtimes : {W : Type 0} → Sender W → Bytes → ℕ → ℕ → Client W → Result W
chtimes send path atime mtime c = setstat send path attr_acmodtime (pair_of atime mtime) c

unfoldable pub chown : {W : Type 0} → Sender W → Bytes → ℕ → ℕ → Client W → Result W
chown send path uid gid c = setstat send path attr_uidgid (pair_of uid gid) c

unfoldable pub chmod : {W : Type 0} → Sender W → Bytes → ℕ → Client W → Result W
chmod send path mode c = setstat send path attr_permissions (other (uint32 (to_chmod_perm mode))) c

unfoldable pub truncate : {W : Type 0} → Sender W → Bytes → ℕ → Client W → Result W
truncate send path size c = setstat send path attr_size (other (uint64 size)) c

unfoldable pub set_extended_data :
    {W : Type 0} → Sender W → Bytes → List StatExtended → Client W → Result W
set_extended_data send path es c = setstat send path attr_extended (file_stat (only_extended es)) c

-- `File`: its path, its handle, which is empty once it is closed, and the offset.
pub record File : Type 0 where
  pub file_path : Bytes
  pub file_handle : Bytes
  pub offset : ℕ

-- A method of an open file.
unfoldable pub when_open : {W : Type 0} → File → (Bytes → Client W → Result W) → Client W → Result W
when_open f run c = elim f.file_handle [ [] ↦ (some (some is_closed), c) | b ∷ bs ↦ run (b ∷ bs) c ]

unfoldable pub file_chown : {W : Type 0} → Sender W → File → ℕ → ℕ → Client W → Result W
file_chown send f uid gid c =
    when_open f
      (λ handle c0.
        fsetstat send handle attr_uidgid
          (file_stat (record {
            size = 0;
            mode = 0;
            mtime = 0;
            atime = 0;
            uid = uid;
            gid = gid;
            extended = [];
          }))
          c0)
      c

unfoldable pub file_chmod : {W : Type 0} → Sender W → File → ℕ → Client W → Result W
file_chmod send f mode c =
    when_open f
      (λ handle c0. fsetstat send handle attr_permissions (other (uint32 (to_chmod_perm mode))) c0)
      c

unfoldable pub file_truncate : {W : Type 0} → Sender W → File → ℕ → Client W → Result W
file_truncate send f size c =
    when_open f (λ handle c0. fsetstat send handle attr_size (other (uint64 size)) c0) c

unfoldable pub file_set_extended_data :
    {W : Type 0} → Sender W → File → List StatExtended → Client W → Result W
file_set_extended_data send f es c =
    when_open f (λ handle c0. fsetstat send handle attr_extended (file_stat (only_extended es)) c0)
      c

-- `File.Close` forgets the handle before it sends the request.
unfoldable pub close_file : {W : Type 0} → Sender W → File → Client W → File × Result W
close_file send f c =
    (record f { file_handle = [] }, when_open f (λ handle c0. close send handle c0) c)
