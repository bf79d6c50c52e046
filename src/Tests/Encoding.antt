-- ===== src/Tests/Encoding.antt =====
-- An open with a size and an owner, as both encoders write it.
use sftp_go.Base.{◌≡◌, some, [], ◌∷◌}
use mathlib.Core.Option
use sftp_go.Packet.{file_stat, open_file}
use sftp_go.Packet.Encode.{marshal_packet}
use sftp_go.Packet.Frame.{send_packet}
use sftp_go.Filexfer.Attributes.{Attributes}
use sftp_go.Filexfer.Packets.{compose_packet}
use sftp_go.Filexfer.Packets.Bodies.{open_packet, marshal_body}
use sftp_go.Filexfer.Agrees.Requests.{same_open, marshal_body-marshal_packet}

abbrev new_file : Attributes
new_file = record {
  attr_flags = 3;
  fields = record {
    size = 260;
    mode = 0;
    mtime = 0;
    atime = 0;
    uid = 1000;
    gid = 100;
    extended = [];
  };
}

marshal_body-marshal_packet_example :
    Option.map send_packet
      (marshal_packet (open_file 7 (47 ∷ 97 ∷ []) 2 3 (file_stat new_file.fields)))
    ≡ some (compose_packet (marshal_body (open_packet (47 ∷ 97 ∷ []) 2 new_file) 7 64 (1 ∷ [])))
marshal_body-marshal_packet_example =
    marshal_body-marshal_packet (same_open (47 ∷ 97 ∷ []) 2 new_file) 64 (1 ∷ [])
