-- ===== src/Client/Setting/Agrees.antt =====
-- client.go: the attributes that the setters send as bare numbers are encoded as those of a FileStat.
use sftp_go.Base.{ℕ, ◌≡◌, refl, Option, []}
use sftp_go.Wire.{Bytes}
use sftp_go.Attrs.{
  FileStat, marshal_file_stat, attr_size, attr_uidgid, attr_permissions, attr_acmodtime,
}
use sftp_go.Value.{marshal}
use sftp_go.Packet.{file_stat}
use sftp_go.Packet.Encode.{marshal_packet, marshal_attrs_field}
use sftp_go.ClientConn.{Outcome}
use sftp_go.Client.{Sender, Client, send_request, marshal_client_request}
use sftp_go.Client.Calls.{setstat, status_call}
use sftp_go.Client.Setting.{chtimes, chown, chmod, truncate, to_chmod_perm}

-- A connection that sees of a request what `marshalPacket` makes of it.
abbrev pub over_wire : {W : Type 0} → (Option (Bytes × Bytes) → W → Outcome × W) → Sender W
over_wire net r w = net (marshal_client_request r) w

abbrev pub fields : ℕ → ℕ → ℕ → ℕ → ℕ → ℕ → FileStat
fields size mode uid gid atime mtime = record {
  size = size;
  mode = mode;
  mtime = mtime;
  atime = atime;
  uid = uid;
  gid = gid;
  extended = [];
}

-- On every connection that sees a request's encoding, the setters of times, owner, permissions and
-- size do what a setstat does with the FileStat that has these fields, and the flag for them.
pub setters-setstat :
    {W : Type 0} (net : Option (Bytes × Bytes) → W → Outcome × W) (path : Bytes) (c : Client W)
    → ((at mt : ℕ)
        → chtimes (over_wire net) path at mt c
          ≡ setstat (over_wire net) path attr_acmodtime (file_stat (fields 0 0 0 0 at mt)) c)
      × ((u g : ℕ)
          → chown (over_wire net) path u g c
            ≡ setstat (over_wire net) path attr_uidgid (file_stat (fields 0 0 u g 0 0)) c)
      × ((mode : ℕ)
          → chmod (over_wire net) path mode c
            ≡ setstat
                (over_wire net)
                path
                attr_permissions
                (file_stat (fields 0 (to_chmod_perm mode) 0 0 0 0))
                c)
      × ((size : ℕ)
          → truncate (over_wire net) path size c
            ≡ setstat (over_wire net) path attr_size (file_stat (fields size 0 0 0 0 0)) c)
unfolding chtimes chown chmod truncate setstat status_call send_request marshal_client_request
    marshal_packet marshal_attrs_field marshal marshal_file_stat
setters-setstat net path c = ((λ at mt. refl), (λ u g. refl), (λ mode. refl), (λ size. refl))
