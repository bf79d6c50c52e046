-- ===== src/Packet/Incoming.antt =====
-- The receiving half of the server loops (server.go, request-server.go): `recvPacket`, without an
-- allocator, and then `makePacket`.
use sftp_go.Base.{none}
use sftp_go.Packet.{Packet}
use sftp_go.Packet.Frame.{Source, FrameError, packet, broken, crashed, recv_frame}
use sftp_go.Packet.Decode.{Decoded, make_packet}

-- What `makePacket` made of the next frame, with the rest of the connection; or the error of
-- `recvPacket`, which ends the loop; or a panic.
pub data Incoming : Type 0 where
  request : Decoded Packet → Source → Incoming
  lost : FrameError → Incoming
  panicked : Incoming

unfoldable pub incoming : Source → Incoming
incoming r = elim (recv_frame none r) [
  | packet t b r' ↦ request (make_packet t b) r'
  | broken e ↦ lost e
  | crashed ↦ panicked
]
