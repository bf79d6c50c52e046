-- ===== src/Tests/Replies.antt =====
-- Responses on the wire, modes and the ids of extended packets.
use sftp_go.Base.{◌≡◌, refl, arith, some, [], ◌∷◌, codes, drop, ◌++◌}
use sftp_go.Wire.{Bytes, ok}
use sftp_go.Packet.Frame.{send_packet}
use sftp_go.Packet.Decode.{unmarshal_extended}
use sftp_go.Packet.Decode.Ids.{LeavesOnly, SameId, unmarshal_extended-SameId}
use sftp_go.Response.{
  StatusError, content, marshal_status_packet, marshal_data, marshal_data_binary, unmarshal_status,
  unmarshal_data, reported,
}
use sftp_go.Response.RoundTrip.{unmarshal_status-marshal_status_packet, unmarshal_data-marshal_data}
use sftp_go.Response.Binary.{send_packet-marshal_data_binary}
use sftp_go.Modes.{to_file_mode, from_file_mode}
use sftp_go.Modes.RoundTrip.{kept, known_type, from_file_mode-to_file_mode}

abbrev missing : StatusError
missing = record { code = 2; msg = codes "no such file"; lang = [] }

unmarshal_status-marshal_status_packet_example :
    unmarshal_status 9 (drop 5 (marshal_status_packet 9 missing)) ≡ reported missing
unmarshal_status-marshal_status_packet_example =
    unmarshal_status-marshal_status_packet 9 9 missing (omega arith) (omega arith) (omega arith)
      (omega arith)

unmarshal_data-marshal_data_example :
    unmarshal_data (drop 5 ((marshal_data 9 2 (1 ∷ 2 ∷ [])).0 ++ (marshal_data 9 2 (1 ∷ 2 ∷ [])).1))
    ≡ ok (content 9 2 (1 ∷ 2 ∷ [])) []
unmarshal_data-marshal_data_example =
    unmarshal_data-marshal_data 9 (1 ∷ 2 ∷ []) (omega arith) (omega arith)

send_packet-marshal_data_binary_example :
    (b : Bytes) × (marshal_data_binary 9 2 (1 ∷ 2 ∷ []) ≡ some b)
    × (send_packet (b, []) ≡ send_packet (marshal_data 9 2 (1 ∷ 2 ∷ [])))
send_packet-marshal_data_binary_example = send_packet-marshal_data_binary 9 (1 ∷ 2 ∷ [])

from_file_mode-to_file_mode_example : from_file_mode (to_file_mode 0x49ed) ≡ kept 0x49ed
from_file_mode-to_file_mode_example = from_file_mode-to_file_mode 0x49ed (omega arith)

kept_whole : kept 0x49ed ≡ 0x49ed
unfolding kept known_type
kept_whole = refl

unmarshal_extended-SameId_example :
    LeavesOnly SameId (unmarshal_extended (0 ∷ 0 ∷ 0 ∷ 7 ∷ 0 ∷ 0 ∷ 0 ∷ 1 ∷ 65 ∷ []))
unmarshal_extended-SameId_example =
    unmarshal_extended-SameId (0 ∷ 0 ∷ 0 ∷ 7 ∷ 0 ∷ 0 ∷ 0 ∷ 1 ∷ 65 ∷ [])
