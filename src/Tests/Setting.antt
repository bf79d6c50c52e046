-- ===== src/Tests/Setting.antt =====
-- A client that changes attributes over a connection that records what is sent.
use sftp_go.Base.{ℕ, ◌≡◌, Option, List, [], ◌∷◌}
use sftp_go.Wire.{Bytes}
use sftp_go.Attrs.{attr_size, attr_uidgid, attr_permissions, attr_acmodtime}
use sftp_go.Packet.{file_stat}
use sftp_go.Server.Errors
use sftp_go.ClientConn.{Outcome, failed}
use sftp_go.Client.{Client}
use sftp_go.Client.Calls.{setstat}
use sftp_go.Client.Setting.{chtimes, chown, chmod, truncate, to_chmod_perm}
use sftp_go.Client.Setting.Agrees.{over_wire, fields, setters-setstat}

abbrev Sent : Type 0
Sent = List (Option (Bytes × Bytes))

abbrev record_it : Option (Bytes × Bytes) → Sent → Outcome × Sent
record_it p sent = (failed Errors.eof, p ∷ sent)

abbrev fresh : Client Sent
fresh = record { nextid = 6; conn = [] }

setters-setstat_example :
    ((at mt : ℕ)
      → chtimes (over_wire record_it) (97 ∷ []) at mt fresh
        ≡ setstat
            (over_wire record_it)
            (97 ∷ [])
            attr_acmodtime
            (file_stat (fields 0 0 0 0 at mt))
            fresh)
    × ((u g : ℕ)
        → chown (over_wire record_it) (97 ∷ []) u g fresh
          ≡ setstat
              (over_wire record_it)
              (97 ∷ [])
              attr_uidgid
              (file_stat (fields 0 0 u g 0 0))
              fresh)
    × ((mode : ℕ)
        → chmod (over_wire record_it) (97 ∷ []) mode fresh
          ≡ setstat
              (over_wire record_it)
              (97 ∷ [])
              attr_permissions
              (file_stat (fields 0 (to_chmod_perm mode) 0 0 0 0))
              fresh)
    × ((size : ℕ)
        → truncate (over_wire record_it) (97 ∷ []) size fresh
          ≡ setstat
              (over_wire record_it)
              (97 ∷ [])
              attr_size
              (file_stat (fields size 0 0 0 0 0))
              fresh)
setters-setstat_example = setters-setstat record_it (97 ∷ []) fresh
