-- ===== src/Tests/Packets.antt =====
-- Packets encoded, framed, received and decoded.
use sftp_go.Base.{ℕ, ◌+◌, ◌≤◌, ◌≡◌, ◌≢◌, refl, arith, none, some, ◌^◌, [], ◌∷◌, ◌++◌, codes, length}
use sftp_go.Wire.{
  marshal_string, marshal_uint32, ok, uint32_bytes, short_packet, unmarshal_uint32_safe,
}
use sftp_go.Attrs.{FileStat, marshal_file_stat, unmarshal_file_stat, unmarshal_attrs}
use sftp_go.Attrs.Info.{FileInfo, file_stat_from_info, unmarshal_attrs-marshal_file_info}
use sftp_go.Modes.{from_file_mode, from_type}
use sftp_go.Value.{marshal_file_info}
use sftp_go.Attrs.RoundTrip.{Fits, restrict, unmarshal_file_stat-marshal_file_stat}
use sftp_go.Packet.{Packet, rename}
use sftp_go.Packet.Encode.{marshal_packet, marshal_rename}
use sftp_go.Packet.Decode.{done, partly, panicked, make_packet}
use sftp_go.Packet.Decode.Total.{make_packet-ne-panicked}
use sftp_go.Packet.Decode.RoundTrip.{incoming-send_packet}
use sftp_go.Packet.Frame.{eof, max_msg_length, send_packet, recv_packet}
use sftp_go.Packet.Frame.Bounds.{Cuts, recv_packet-Cuts}
use sftp_go.Packet.Frame.Stream.{source}
use sftp_go.Packet.Decode.Shapes.{on_wire}
use sftp_go.Packet.Incoming.{request, incoming}

abbrev moved : Packet
moved = rename 7 (codes "a.txt") (codes "b.txt")

short :
    length (marshal_rename 7 (codes "a.txt") (codes "b.txt")) + length {A = ℕ} []
    ≤ max_msg_length + 4
unfolding marshal_rename marshal_uint32 marshal_string uint32_bytes
short = omega arith

incoming-send_packet_example :
    incoming
      (source (send_packet (marshal_rename 7 (codes "a.txt") (codes "b.txt"), []) ++ 1 ∷ []) eof)
    ≡ request (done moved) (source (1 ∷ []) eof)
unfolding marshal_packet on_wire
incoming-send_packet_example = incoming-send_packet moved _ (1 ∷ []) eof (omega arith) refl short

make_packet-ne-panicked_example : make_packet 18 (0 ∷ 0 ∷ []) ≢ panicked
make_packet-ne-panicked_example = make_packet-ne-panicked 18 (0 ∷ 0 ∷ [])

-- An id that is cut short leaves the packet at its zero values, with an error.
cut_short_rename : make_packet 18 (0 ∷ 0 ∷ []) ≡ partly (rename 0 [] []) short_packet
unfolding make_packet unmarshal_uint32_safe
cut_short_rename = refl

recv_packet-Cuts_example :
    Cuts
      (source (0 ∷ 0 ∷ 0 ∷ 1 ∷ 5 ∷ []) eof)
      (recv_packet none 1 (source (0 ∷ 0 ∷ 0 ∷ 1 ∷ 5 ∷ []) eof)).1
recv_packet-Cuts_example = recv_packet-Cuts none 1 (source (0 ∷ 0 ∷ 0 ∷ 1 ∷ 5 ∷ []) eof)

abbrev sample : FileStat
sample = record {
  size = 1000;
  mode = 0x81a4;
  mtime = 3;
  atime = 4;
  uid = 5;
  gid = 6;
  extended = record { ext_type = codes "k"; ext_data = codes "v" } ∷ [];
}

sample-Fits : Fits sample
sample-Fits = omega arith

unmarshal_file_stat-marshal_file_stat_example :
    unmarshal_file_stat 0x80000001 (marshal_file_stat [] 0x80000001 sample ++ 9 ∷ [])
    ≡ ok (restrict 0x80000001 sample) (9 ∷ [])
unmarshal_file_stat-marshal_file_stat_example =
    unmarshal_file_stat-marshal_file_stat 0x80000001 sample (9 ∷ []) sample-Fits

restricted :
    restrict 0x80000001 sample ≡ record sample { mode = 0; mtime = 0; atime = 0; uid = 0; gid = 0 }
unfolding restrict
restricted = refl

abbrev picture : FileInfo
picture = record {
  info_size = 1000;
  info_mode = 0o644;
  mod_time = 2 ^ 32 + 9;
  sys = some (1, 2);
  uid_gid = some (5, 6);
  extended_data = some (record { ext_type = codes "k"; ext_data = codes "v" } ∷ []);
}

picture-Fits : Fits (file_stat_from_info picture).1
unfolding file_stat_from_info from_file_mode from_type
picture-Fits = omega arith

unmarshal_attrs-marshal_file_info_example :
    unmarshal_attrs
      (marshal_file_info [] (file_stat_from_info picture).0 (file_stat_from_info picture).1)
    ≡ ok (file_stat_from_info picture).1 []
unmarshal_attrs-marshal_file_info_example = unmarshal_attrs-marshal_file_info picture picture-Fits
