-- ===== src/Packet/Frame.antt =====
-- packet.go, `sendPacket` and `recvPacket`: packets framed by their length on a byte stream.
pub mod Stream
pub mod Bounds
use sftp_go.Base.{
  ℕ, ◌+◌, ◌-◌, ◌*◌, ◌%◌, ◌^◌, Option, none, some, List, [], ◌∷◌, ◌++◌, length, take, drop, ltb,
  ◌==◌, if◌then◌else◌,
}
use sftp_go.Wire.{
  Bytes, Error, short_packet, long_packet, ok, fail, panic, uint32_bytes, unmarshal_uint32,
}
use sftp_go.Allocator.{Allocator, get_page}

-- `io.EOF`, `io.ErrUnexpectedEOF`, and an error of the reader's own.
pub data IoError : Type 0 where
  eof unexpected_eof : IoError
  other : ℕ → IoError

-- The connection as a reader: the bytes to come, and what it reports when they are used up.
pub record Source : Type 0 where
  pub bytes : Bytes
  pub at_end : IoError

pub data FrameError : Type 0 where
  io : IoError → FrameError
  wire : Error → FrameError

abbrev pub max_msg_length : ℕ
max_msg_length = 256 * 1024

-- What `io.ReadFull` reports when the reader ends in the middle.
abbrev cut_short : IoError → IoError
cut_short eof = unexpected_eof
cut_short unexpected_eof = unexpected_eof
cut_short (other n) = other n

pub data Full : Type 0 where
  full : Bytes → Source → Full
  failed : IoError → Full

-- `io.ReadFull` of `n` bytes, n > 0.
unfoldable pub read_full : ℕ → Source → Full
read_full n r =
    if ltb (length r.bytes) n
    then failed (if length r.bytes == 0 then r.at_end else cut_short r.at_end)
    else full (take n r.bytes) (record r { bytes = drop n r.bytes })

-- `sendPacket` on the header and the payload of `marshalPacket`: the length without its own four
-- bytes is put in front of the header, and both are written. The writer does not fail here.
unfoldable pub send_packet : Bytes × Bytes → Bytes
send_packet (header, payload) =
    let size = length header + length payload - 4 in
    (uint32_bytes (size % 2 ^ 32) ++ drop 4 header) ++ payload

-- The type byte and the bytes behind it, with what is left of the connection; an error;
-- or a run-time panic.
pub data Received : Type 0 where
  packet : ℕ → Bytes → Source → Received
  broken : FrameError → Received
  crashed : Received

-- The length of the slice that a read goes into: that of the allocator's page, or of a new slice.
unfoldable pub room_of : Option ℕ → ℕ → ℕ
room_of none new = new
room_of (some page) new = page

-- The body: `b[:length]`, which has to be within the slice, and then `b[0]` and `b[1:length]` of what
-- the second `ReadFull` reads, where `EOF` is unexpected.
unfoldable pub recv_body : Option ℕ → ℕ → Source → Received
recv_body page size r = if ltb (room_of page size) size then crashed else elim (read_full size r) [
  | failed e ↦ broken (io (cut_short e))
  | full b r' ↦ elim b [ [] ↦ crashed | t ∷ content ↦ packet t content r' ]
]

unfoldable pub recv_sized : Option ℕ → ℕ → Source → Received
recv_sized page size r =
    if ltb max_msg_length size
    then broken (wire long_packet)
    else if size == 0
    then broken (wire short_packet)
    else recv_body page size r

-- Reading into a page of a length, or into new slices: the length from `b[:4]`, then the body.
unfoldable pub recv_frame : Option ℕ → Source → Received
recv_frame page r = if ltb (room_of page 4) 4 then crashed else elim (read_full 4 r) [
  | failed e ↦ broken (io e)
  | full b r' ↦ elim (unmarshal_uint32 b) [
    | ok size _ ↦ recv_sized page size r'
    | fail e ↦ broken (wire e)
    | panic ↦ crashed
  ]
]

-- `recvPacket`: with an allocator, the packet is read into a page taken for the order id, which
-- `GetPage` makes `maxMsgLength` long.
unfoldable pub recv_packet : Option Allocator → ℕ → Source → Option Allocator × Received
recv_packet none order_id r = (none, recv_frame none r)
recv_packet (some a) order_id r = (some (get_page order_id a).1, recv_frame (some max_msg_length) r)
