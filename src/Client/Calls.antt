-- ===== src/Client/Calls.antt =====
-- client.go: the methods of `Client` that send one request, with the id and the client behind them,
-- and those that call two of them.
use sftp_go.Base.{Bool, true, false, ◌||◌, ℕ, Option, none, some, [], ◌∷◌, ◌==◌, if◌then◌else◌}
use sftp_go.Wire.{Bytes, ok, fail, panic, unmarshal_uint32, unmarshal_string}
use sftp_go.Attrs.{FileStat, unmarshal_attrs}
use sftp_go.Value
use sftp_go.Packet
use sftp_go.Packet.{AttrsField}
use sftp_go.Packet.Fxp
use sftp_go.ClientConn.{Outcome, packet, failed}
use sftp_go.Client.{
  Request, plain, hardlink, posix_rename, ClientError, connection, status, permission, wrong_id,
  unimplemented, unexpected_count, malformed, Client, Sender, send_request, status_error,
}

-- `case sshFxpStatus` and `default`: an error or nil, or a run-time panic.
unfoldable pub status_result : ℕ → Outcome → Option (Option ClientError)
status_result id (failed e) = some (some (connection e))
status_result id (packet typ d) =
    if typ == Fxp.status then status_error id d else some (some (unimplemented typ))

unfoldable pub status_call :
    {W : Type 0} → Sender W → (ℕ → Request) → Client W → Option (Option ClientError) × Client W
status_call send make c = let (r, c') = send_request send make c in (status_result c'.nextid r, c')

-- What a method with a value returns: it, an error, nil with a nil error where the status says OK, or
-- a panic.
pub data Answer {ℓ} (A : Type ℓ) : Type ℓ where
  answer : A → Answer A
  errored : ClientError → Answer A
  nothing panicked : Answer A

unfoldable pub status_answer {ℓ} : {A : Type ℓ} → Option (Option ClientError) → Answer A
status_answer none = panicked
status_answer (some none) = nothing
status_answer (some (some e)) = errored e

-- The id, in front of what the response is about.
unfoldable pub identified {ℓ} : {A : Type ℓ} → (Bytes → Answer A) → ℕ → Bytes → Answer A
identified parse id d = elim (unmarshal_uint32 d) [
  | ok sid d1 ↦ if sid == id then parse d1 else errored (wrong_id id sid)
  | fail e ↦ panicked
  | panic ↦ panicked
]

unfoldable pub value_result {ℓ} : {A : Type ℓ} → ℕ → (Bytes → Answer A) → ℕ → Outcome → Answer A
value_result wanted parse id (failed e) = errored (connection e)
value_result wanted parse id (packet typ d) =
    if typ == wanted then identified parse id d else status_answer (status_result id (packet typ d))

unfoldable pub value_call {ℓ} :
    {A : Type ℓ} {W : Type 0}
    → Sender W
    → ℕ
    → (Bytes → Answer A)
    → (ℕ → Request)
    → Client W
    → Answer A × Client W
value_call send wanted parse make c =
    let (r, c') = send_request send make c in (value_result wanted parse c'.nextid r, c')

-- `handle, _ := unmarshalString(data)`.
unfoldable pub handle_of : Bytes → Answer Bytes
handle_of d = elim (unmarshal_string d) [
  | ok h rest ↦ answer h
  | fail e ↦ panicked
  | panic ↦ panicked
]

-- `attr, _, err := unmarshalAttrs(data)`.
unfoldable pub attrs_of : Bytes → Answer FileStat
attrs_of d = elim (unmarshal_attrs d) [
  | ok fs rest ↦ answer fs
  | fail e ↦ errored (malformed e)
  | panic ↦ panicked
]

-- The first of the names, of which there is one.
unfoldable pub name_of : Bytes → Answer Bytes
name_of d = elim (unmarshal_uint32 d) [
  | ok count d1 ↦ if count == 1 then handle_of d1 else errored (unexpected_count 1 count)
  | fail e ↦ panicked
  | panic ↦ panicked
]

-- A symlink's target is its `oldname`.
unfoldable pub link :
    {W : Type 0} → Sender W → Bytes → Bytes → Client W → Option (Option ClientError) × Client W
link send old new c = status_call send (λ id. hardlink id old new) c

unfoldable pub symlink :
    {W : Type 0} → Sender W → Bytes → Bytes → Client W → Option (Option ClientError) × Client W
symlink send old new c = status_call send (λ id. plain (Packet.symlink id old new)) c

unfoldable pub fsetstat :
    {W : Type 0}
    → Sender W
    → Bytes
    → ℕ
    → AttrsField
    → Client W
    → Option (Option ClientError) × Client W
fsetstat send handle flags attrs c =
    status_call send (λ id. plain (Packet.fsetstat id flags handle attrs)) c

unfoldable pub setstat :
    {W : Type 0}
    → Sender W
    → Bytes
    → ℕ
    → AttrsField
    → Client W
    → Option (Option ClientError) × Client W
setstat send path flags attrs c =
    status_call send (λ id. plain (Packet.setstat id flags path attrs)) c

unfoldable pub close :
    {W : Type 0} → Sender W → Bytes → Client W → Option (Option ClientError) × Client W
close send handle c = status_call send (λ id. plain (Packet.close id handle)) c

unfoldable pub remove_file :
    {W : Type 0} → Sender W → Bytes → Client W → Option (Option ClientError) × Client W
remove_file send path c = status_call send (λ id. plain (Packet.remove id path)) c

unfoldable pub remove_directory :
    {W : Type 0} → Sender W → Bytes → Client W → Option (Option ClientError) × Client W
remove_directory send path c = status_call send (λ id. plain (Packet.rmdir id path)) c

unfoldable pub rename :
    {W : Type 0} → Sender W → Bytes → Bytes → Client W → Option (Option ClientError) × Client W
rename send old new c = status_call send (λ id. plain (Packet.rename id old new)) c

unfoldable pub posix_rename_file :
    {W : Type 0} → Sender W → Bytes → Bytes → Client W → Option (Option ClientError) × Client W
posix_rename_file send old new c = status_call send (λ id. posix_rename id old new) c

unfoldable pub mkdir :
    {W : Type 0} → Sender W → Bytes → Client W → Option (Option ClientError) × Client W
mkdir send path c = status_call send (λ id. plain (Packet.mkdir id 0 path)) c

-- `Stat` and `Lstat` give an `os.FileInfo`, which is this FileStat with the last element of the path.
unfoldable pub opendir : {W : Type 0} → Sender W → Bytes → Client W → Answer Bytes × Client W
opendir send path c = value_call send Fxp.handle handle_of (λ id. plain (Packet.opendir id path)) c

unfoldable pub open_handle :
    {W : Type 0} → Sender W → Bytes → ℕ → Client W → Answer Bytes × Client W
open_handle send path pflags c =
    value_call send Fxp.handle handle_of
      (λ id. plain (Packet.open_file id path pflags 0 (Packet.other Value.nil))) c

unfoldable pub stat : {W : Type 0} → Sender W → Bytes → Client W → Answer FileStat × Client W
stat send path c = value_call send Fxp.attrs attrs_of (λ id. plain (Packet.stat id path)) c

unfoldable pub lstat : {W : Type 0} → Sender W → Bytes → Client W → Answer FileStat × Client W
lstat send path c = value_call send Fxp.attrs attrs_of (λ id. plain (Packet.lstat id path)) c

unfoldable pub fstat : {W : Type 0} → Sender W → Bytes → Client W → Answer FileStat × Client W
fstat send handle c = value_call send Fxp.attrs attrs_of (λ id. plain (Packet.fstat id handle)) c

unfoldable pub read_link : {W : Type 0} → Sender W → Bytes → Client W → Answer Bytes × Client W
read_link send path c = value_call send Fxp.name name_of (λ id. plain (Packet.readlink id path)) c

unfoldable pub real_path : {W : Type 0} → Sender W → Bytes → Client W → Answer Bytes × Client W
real_path send path c = value_call send Fxp.name name_of (λ id. plain (Packet.realpath id path)) c

-- `Getwd`.
unfoldable pub getwd : {W : Type 0} → Sender W → Client W → Answer Bytes × Client W
getwd send c = real_path send (46 ∷ []) c

-- `Remove`, which tries the removal of a directory where that of a file fails in one of three ways.
unfoldable pub may_be_directory : Option (Option ClientError) → Bool
may_be_directory (some (some (status s))) = s.code == 4 || s.code == 24
may_be_directory (some (some permission)) = true
may_be_directory _ = false

unfoldable pub remove :
    {W : Type 0} → Sender W → Bytes → Client W → Option (Option ClientError) × Client W
remove send path c =
    let (r, c1) = remove_file send path c in
    let again = remove_directory send path c1 in if may_be_directory r then again else (r, c1)
