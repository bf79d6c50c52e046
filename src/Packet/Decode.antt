-- ===== src/Packet/Decode.antt =====
-- packet.go and packet-typing.go: `UnmarshalBinary` of every request packet, and `makePacket`.
pub mod Total
pub mod Ids
pub mod Shapes
pub mod Bodies
pub mod Pairs
pub mod RoundTrip
use sftp_go.Base.{
  ℕ, zero, suc, ◌%◌, ◌^◌, Option, none, some, List, [], ◌∷◌, ◌++◌, length, take, ltb, ◌==◌,
}
use sftp_go.Base.{if◌then◌else◌, codes, same_bytes}
use sftp_go.Wire.{
  Bytes, Error, short_packet, unknown_extended_packet, unhandled_packet_type, Read, ok, fail, panic,
  unmarshal_uint32_safe, unmarshal_uint64_safe, unmarshal_string_safe, split_at,
}
use sftp_go.Packet.{
  Packet, Specific, ExtensionPair, raw, other, init, lstat, open_file, close, read, write, fstat,
  setstat, fsetstat, opendir, readdir, remove, mkdir, rmdir, realpath, stat, rename, readlink,
  symlink, extended, statvfs, posix_rename, hardlink,
}
use sftp_go.Packet.Fxp
use sftp_go.Value.{nil}

-- What `UnmarshalBinary` and `makePacket` leave: the packet; the packet as far as it was decoded,
-- with an error; no packet (a nil one) and an error; or a panic.
pub data Decoded {ℓ} (P : Type ℓ) : Type ℓ where
  done : P → Decoded P
  partly : P → Error → Decoded P
  refused : Error → Decoded P
  panicked : Decoded P

-- `if x, b, err = read(b); err != nil { return err }`, where `so_far` is the packet with the fields
-- read before: a failed read stores the zero value.
abbrev pub decode {ℓ κ} :
    {A : Type ℓ} {P : Type κ} → Read A → P → (A → Bytes → Decoded P) → Decoded P
decode (ok a b) so_far next = next a b
decode (fail e) so_far next = partly so_far e
decode panic so_far next = panicked

unfoldable pub unmarshal_id_string : (ℕ → Bytes → Packet) → Bytes → Decoded Packet
unmarshal_id_string p b =
    decode (unmarshal_uint32_safe b) (p 0 [])
      λ id b1. decode (unmarshal_string_safe b1) (p id []) λ s b2. done (p id s)

-- The loop of `sshFxInitPacket.UnmarshalBinary` on what is left, with the pairs read so far. A
-- pair takes 8 bytes at least, so the length of the input is fuel enough.
unmarshal_pairs : ℕ → ℕ → List ExtensionPair → Bytes → Decoded Packet
unmarshal_pairs fuel version exts [] = done (init version exts)
unmarshal_pairs zero version exts (x ∷ xs) = panicked
unmarshal_pairs (suc fuel) version exts (x ∷ xs) =
    decode (unmarshal_string_safe (x ∷ xs)) (init version exts) λ name b1.
      decode (unmarshal_string_safe b1) (init version exts) λ value b2.
        unmarshal_pairs fuel version (exts ++ record { name = name; value = value } ∷ []) b2

unmarshal_init : Bytes → Decoded Packet
unfolding unmarshal_pairs
unmarshal_init b =
    decode (unmarshal_uint32_safe b) (init 0 [])
      λ version b1. unmarshal_pairs (length b1) version [] b1

unmarshal_symlink : Bytes → Decoded Packet
unmarshal_symlink b = decode (unmarshal_uint32_safe b) (symlink 0 [] []) λ id b1.
    decode (unmarshal_string_safe b1) (symlink id [] []) λ target b2.
      decode (unmarshal_string_safe b2) (symlink id target [])
        λ link b3. done (symlink id target link)

unmarshal_open : Bytes → Decoded Packet
unmarshal_open b = decode (unmarshal_uint32_safe b) (open_file 0 [] 0 0 (other nil)) λ id b1.
    decode (unmarshal_string_safe b1) (open_file id [] 0 0 (other nil)) λ path b2.
      decode (unmarshal_uint32_safe b2) (open_file id path 0 0 (other nil)) λ pflags b3.
        decode (unmarshal_uint32_safe b3) (open_file id path pflags 0 (other nil))
          λ flags b4. done (open_file id path pflags flags (raw b4))

unmarshal_read : Bytes → Decoded Packet
unmarshal_read b = decode (unmarshal_uint32_safe b) (read 0 0 0 []) λ id b1.
    decode (unmarshal_string_safe b1) (read id 0 0 []) λ handle b2.
      decode (unmarshal_uint64_safe b2) (read id 0 0 handle) λ offset b3.
        decode (unmarshal_uint32_safe b3) (read id 0 offset handle)
          λ len b4. done (read id len offset handle)

unmarshal_rename : Bytes → Decoded Packet
unmarshal_rename b = decode (unmarshal_uint32_safe b) (rename 0 [] []) λ id b1.
    decode (unmarshal_string_safe b1) (rename id [] []) λ old b2.
      decode (unmarshal_string_safe b2) (rename id old []) λ new b3. done (rename id old new)

unmarshal_write : Bytes → Decoded Packet
unmarshal_write b = decode (unmarshal_uint32_safe b) (write 0 0 0 [] []) λ id b1.
    decode (unmarshal_string_safe b1) (write id 0 0 [] []) λ handle b2.
      decode (unmarshal_uint64_safe b2) (write id 0 0 handle []) λ offset b3.
        decode (unmarshal_uint32_safe b3) (write id 0 offset handle []) λ len b4.
          if ltb (length b4 % 2 ^ 32) len
          then partly (write id len offset handle []) short_packet
          else decode (split_at len b4) (write id len offset handle [])
              λ content b5. done (write id len offset handle content)

unmarshal_mkdir : Bytes → Decoded Packet
unmarshal_mkdir b = decode (unmarshal_uint32_safe b) (mkdir 0 0 []) λ id b1.
    decode (unmarshal_string_safe b1) (mkdir id 0 []) λ path b2.
      decode (unmarshal_uint32_safe b2) (mkdir id 0 path) λ flags b3. done (mkdir id flags path)

unmarshal_setstat : Bytes → Decoded Packet
unmarshal_setstat b = decode (unmarshal_uint32_safe b) (setstat 0 0 [] (other nil)) λ id b1.
    decode (unmarshal_string_safe b1) (setstat id 0 [] (other nil)) λ path b2.
      decode (unmarshal_uint32_safe b2) (setstat id 0 path (other nil))
        λ flags b3. done (setstat id flags path (raw b3))

unmarshal_fsetstat : Bytes → Decoded Packet
unmarshal_fsetstat b = decode (unmarshal_uint32_safe b) (fsetstat 0 0 [] (other nil)) λ id b1.
    decode (unmarshal_string_safe b1) (fsetstat id 0 [] (other nil)) λ handle b2.
      decode (unmarshal_uint32_safe b2) (fsetstat id 0 handle (other nil))
        λ flags b3. done (fsetstat id flags handle (raw b3))

unmarshal_statvfs : Bytes → Decoded Specific
unmarshal_statvfs b = decode (unmarshal_uint32_safe b) (statvfs 0 [] []) λ id b1.
    decode (unmarshal_string_safe b1) (statvfs id [] []) λ request b2.
      decode (unmarshal_string_safe b2) (statvfs id request [])
        λ path b3. done (statvfs id request path)

unmarshal_posix_rename : Bytes → Decoded Specific
unmarshal_posix_rename b = decode (unmarshal_uint32_safe b) (posix_rename 0 [] [] []) λ id b1.
    decode (unmarshal_string_safe b1) (posix_rename id [] [] []) λ request b2.
      decode (unmarshal_string_safe b2) (posix_rename id request [] []) λ old b3.
        decode (unmarshal_string_safe b3) (posix_rename id request old [])
          λ new b4. done (posix_rename id request old new)

unmarshal_hardlink : Bytes → Decoded Specific
unmarshal_hardlink b = decode (unmarshal_uint32_safe b) (hardlink 0 [] [] []) λ id b1.
    decode (unmarshal_string_safe b1) (hardlink id [] [] []) λ request b2.
      decode (unmarshal_string_safe b2) (hardlink id request [] []) λ old b3.
        decode (unmarshal_string_safe b3) (hardlink id request old [])
          λ new b4. done (hardlink id request old new)

abbrev pub statvfs_name : Bytes
statvfs_name = codes "statvfs@openssh.com"

abbrev pub posix_rename_name : Bytes
posix_rename_name = codes "posix-rename@openssh.com"

abbrev pub hardlink_name : Bytes
hardlink_name = codes "hardlink@openssh.com"

-- The specific packet as far as decoded is `SpecificPacket`, whether or not it came with an error.
specific_into : ℕ → Bytes → Decoded Specific → Decoded Packet
specific_into id request (done s) = done (extended id request (some s))
specific_into id request (partly s e) = partly (extended id request (some s)) e
specific_into id request (refused e) = partly (extended id request none) e
specific_into id request panicked = panicked

pub unmarshal_extended : Bytes → Decoded Packet
unfolding specific_into unmarshal_statvfs unmarshal_posix_rename unmarshal_hardlink
unmarshal_extended b = decode (unmarshal_uint32_safe b) (extended 0 [] none) λ id b1.
    decode (unmarshal_string_safe b1) (extended id [] none) λ request _.
      if same_bytes request statvfs_name
      then specific_into id request (unmarshal_statvfs b)
      else if same_bytes request posix_rename_name
      then specific_into id request (unmarshal_posix_rename b)
      else if same_bytes request hardlink_name
      then specific_into id request (unmarshal_hardlink b)
      else partly (extended id request none) unknown_extended_packet

-- `makePacket` on the type byte and the bytes behind it.
unfoldable pub make_packet : ℕ → Bytes → Decoded Packet
unfolding unmarshal_id_string unmarshal_init unmarshal_symlink unmarshal_open unmarshal_read
    unmarshal_rename unmarshal_write unmarshal_mkdir unmarshal_setstat unmarshal_fsetstat
    unmarshal_extended
make_packet t b =
    if t == Fxp.init
    then unmarshal_init b
    else if t == Fxp.lstat
    then unmarshal_id_string lstat b
    else if t == Fxp.open_file
    then unmarshal_open b
    else if t == Fxp.close
    then unmarshal_id_string close b
    else if t == Fxp.read
    then unmarshal_read b
    else if t == Fxp.write
    then unmarshal_write b
    else if t == Fxp.fstat
    then unmarshal_id_string fstat b
    else if t == Fxp.setstat
    then unmarshal_setstat b
    else if t == Fxp.fsetstat
    then unmarshal_fsetstat b
    else if t == Fxp.opendir
    then unmarshal_id_string opendir b
    else if t == Fxp.readdir
    then unmarshal_id_string readdir b
    else if t == Fxp.remove
    then unmarshal_id_string remove b
    else if t == Fxp.mkdir
    then unmarshal_mkdir b
    else if t == Fxp.rmdir
    then unmarshal_id_string rmdir b
    else if t == Fxp.realpath
    then unmarshal_id_string realpath b
    else if t == Fxp.stat
    then unmarshal_id_string stat b
    else if t == Fxp.rename
    then unmarshal_rename b
    else if t == Fxp.readlink
    then unmarshal_id_string readlink b
    else if t == Fxp.symlink
    then unmarshal_symlink b
    else if t == Fxp.extended
    then unmarshal_extended b
    else refused unhandled_packet_type
