-- ===== src/Lib.antt =====
-- The SFTP package: encoding of packets, framing, order of responses, memory pages and paths.
--
-- A connection carries packets, each a length, a type byte and a body. The server reads a packet,
-- numbers it, hands it to a worker and sends the response when its turn comes.
--
-- Wire        packet.go: `marshalUint32` … `unmarshalStringSafe`, the numbers and strings of a packet.
--             A Go panic is a value of its own (`panic`), so that its absence can be shown.
-- Attrs       attrs.go, packet.go: `FileStat`, `marshalFileStat`, `unmarshalFileStat`; Attrs/Info
--             `fileStatFromInfo`, with the owner of attrs_unix.go.
-- Value       packet.go: `marshal` on the values that its switch tells apart.
-- Packet      packet.go, packet-typing.go: the requests; Packet/Encode their `MarshalBinary`,
--             Packet/Decode their `UnmarshalBinary` and `makePacket`, Packet/Frame `sendPacket` and
--             `recvPacket`, Packet/Incoming the receiving half of `Serve` (server.go).
-- Allocator   allocator.go: `GetPage`, `ReleasePages`, `Free` and the counts. A page is a number.
-- Pool        pool.go: `bufPool`, and in Pool/Sharing the clients that get and put back its buffers.
-- PacketManager  packet-manager.go: order ids, `controller`, `maybeSendPackets`. It takes the allocator
--             and releases the pages of a request when its response is sent. PacketManager/Dispatch:
--             `workerChan` as a relation between the steps of the dispatcher and the workers.
-- Paths       request-server.go, server_unix.go: `cleanPathWithBase`, `cleanPath`, `toLocalPath`, on
--             Go's `path.Clean` for slash-separated paths.
-- Response    packet.go, server.go: the responses, their encoders and the client's decoders of two.
-- Filexfer    internal/encoding/ssh/filexfer: the second encoder of the protocol. Filexfer/Buffer its
--             buffer, Filexfer/Attributes `Attributes`, the packets in Filexfer/Paths, Handles, Responses
--             and Packets; Filexfer/Agrees compares it with packet.go.
-- Modes       stat.go, internal/encoding/ssh/filexfer/permissions.go: `toFileMode`, `fromFileMode`.
-- Server      server.go, errno_posix.go, server_statvfs_impl.go: Server/Errors `statusFromError`,
--             Server/Handles the table of open handles, Server/Respond the `respond` methods,
--             Server/Dispatch `handlePacket` and the worker. What the server calls of the operating
--             system is the record `Os`, a parameter; Server/ReadOnly states what it relies on.
-- Requests    request.go, request-server.go: `requestFromPacket`, `requestMethod`, `NewRequest`;
--             Requests/Listing `filelist`, with the lister of request-example.go.
-- RequestServer  request-server.go, request.go: the record `Handlers` is what the program provides;
--             RequestServer/Holding what an open request holds, RequestServer/Open `open` and `opendir`,
--             RequestServer/Transfer its reads and
--             writes, RequestServer/Call `Request.call`, RequestServer/Worker `packetWorker` and the end of `Serve`.
-- Client      client.go: the requests of the client, on a function that sends one and gives its result;
--             Client/Calls and Client/Setting its methods of one request, Client/Reads `readAt`,
--             Client/Writes `writeAt`; what the scheduler decides where requests are concurrent is the
--             record Schedule, an argument.
-- ClientConn  conn.go: `clientConn`, the requests in flight and what their channels are sent;
--             `nextID` of client.go.
-- Tests       concrete runs of all of them.
--
-- Bytes and machine integers are natural numbers; the wrap-around of uint32 and uint64 is written out.
-- The decoder of extension pairs recurses on fuel, the length of its input, which is enough since every
-- pair takes eight bytes at least; `make_packet` supplies it, and so do the init packets of filexfer.
-- The decimal digits of a handle recurse on fuel, the number plus one, which is enough since each digit
-- divides it by ten. The loops of the client over a slice recurse on fuel, more than its bytes, which
-- is enough where each round moves one byte.
-- Locks are not modelled: a method that holds the mutex for its whole body is one step, and the state
-- of `controller` belongs to one goroutine. An order of steps is a list of events.
-- A worker's answer is one step here, as is each call of the system or of a handler, which does not
-- change the request it is given. Not modelled: the
-- closing of the channels at the end of a connection, the loop of `Serve` beyond its receiving half and
-- the receiving loop of the request server, contexts, the client's directories, its
-- copying to and from streams and its options, the extensions of filexfer and its registry of extended
-- packets, listings and logging.
pub mod Base
pub mod Wire
pub mod Attrs
pub mod Value
pub mod Packet
pub mod Allocator
pub mod PacketManager
pub mod Pool
pub mod Paths
pub mod Response
pub mod Modes
pub mod Server
pub mod Requests
pub mod RequestServer
pub mod Client
pub mod ClientConn
pub mod Filexfer
mod Tests
