-- ===== src/Client/Reads/Honest.antt =====
-- A round of `readChunkAt` against a server that answers each read with some bytes of a
-- file, or with the end of it.
use sftp_go.Base.{
  ℕ, ◌+◌, ◌-◌, ◌%◌, ◌^◌, ◌<◌, ◌≤◌, ◌≡◌, ap, ◌∙◌, sym, arith, some, [], ◌++◌, append-nil,
  append_assoc, length, length-take, length-drop, take, drop,
}
use sftp_go.Wire.{Bytes, ok, split_at, uint32_bytes, marshal_uint32}
use sftp_go.Wire.RoundTrip.{unmarshal_uint32_bytes, split_at_append}
use sftp_go.Packet.{read}
use sftp_go.Packet.Fxp
use sftp_go.Response.{StatusError, marshal_status_packet, marshal_data}
use sftp_go.Response.RoundTrip.{unmarshal_status-marshal_status_packet}
use sftp_go.ClientConn.{Outcome, packet, next_id}
use sftp_go.Client.{eof, Client, Sender, plain, send_request, normalise_error, status_error}
use sftp_go.Client.Reads.{Round, returns, copies, read_data, read_response}

-- The answers to a read of some bytes at an offset: a status that says EOF where the file has ended,
-- or bytes of the file from there, one at least and no more than asked for.
pub data HonestAnswer (file : Bytes) (id len off : ℕ) : Outcome → Type 0 where
  ended :
      (e : StatusError)
      → e.code ≡ 1
      → length e.msg < 2 ^ 32
      → length e.lang < 2 ^ 32
      → length file ≤ off
      → HonestAnswer file id len off (packet Fxp.status (drop 5 (marshal_status_packet id e)))
  delivered :
      (k : ℕ)
      → 0 < k
      → k ≤ len
      → off + k ≤ length file
      → HonestAnswer file id len off (
          packet Fxp.content (
            drop 5 (
              (marshal_data id k (take k (drop off file))).0
              ++ (marshal_data id k (take k (drop off file))).1)))

-- The server behind the connection has the file open under the handle.
unfoldable pub IsHonest : {W : Type 0} → Sender W → Bytes → Bytes → Type 0
IsHonest {W} send handle file =
    (id len off : ℕ) (w : W)
    → id < 2 ^ 32
    → 0 < len
    → HonestAnswer file id len off (send (plain (read id len off handle)) w).0

-- Two cases of a round.
pub data RoundOf (file : Bytes) (len off : ℕ) (r : Round) : Type 0 where
  round_ends : length file ≤ off → r ≡ returns (some eof) → RoundOf file len off r
  round_copies :
      (k : ℕ)
      → 0 < k
      → k ≤ len
      → off + k ≤ length file
      → r ≡ copies (take k (drop off file))
      → RoundOf file len off r

pub read_status_lem :
    (id : ℕ) (e : StatusError)
    → id < 2 ^ 32
    → e.code ≡ 1
    → length e.msg < 2 ^ 32
    → length e.lang < 2 ^ 32
    → read_response id (packet Fxp.status (drop 5 (marshal_status_packet id e)))
      ≡ returns (some eof)
unfolding read_response status_error normalise_error
read_status_lem id e hi hc hm hl =
    rw (unmarshal_status-marshal_status_packet id id e hi (rw hc (omega arith)) hm hl)
      (ground arith)

split_at_all : (k : ℕ) (piece : Bytes) → length piece ≡ k → split_at k piece ≡ ok piece []
split_at_all k piece e =
    ap (split_at k) (sym (append-nil piece)) ∙ (rw (← e) (split_at_append piece []))

read_data_bytes :
    (id k : ℕ) (piece : Bytes)
    → id < 2 ^ 32
    → k < 2 ^ 32
    → length piece ≡ k
    → read_data id (uint32_bytes id ++ (uint32_bytes k ++ piece)) ≡ copies piece
unfolding read_data
read_data_bytes id k piece hi hk e =
    rw
      (
        read_data,
        unmarshal_uint32_bytes id (uint32_bytes k ++ piece) hi,
        unmarshal_uint32_bytes k piece hk,
        split_at_all k piece e,
      )
      (ground arith)

data_body :
    (id k : ℕ) (piece : Bytes)
    → drop 5 ((marshal_data id k piece).0 ++ (marshal_data id k piece).1)
      ≡ uint32_bytes id ++ (uint32_bytes k ++ piece)
unfolding marshal_data marshal_uint32
data_body id k piece = append_assoc (uint32_bytes id) (uint32_bytes k) piece

pub read_data_lem :
    (id k : ℕ) (piece : Bytes)
    → id < 2 ^ 32
    → k < 2 ^ 32
    → length piece ≡ k
    → read_response id
        (packet Fxp.content (drop 5 ((marshal_data id k piece).0 ++ (marshal_data id k piece).1)))
      ≡ copies piece
unfolding read_response
read_data_lem id k piece hi hk e = rw (data_body id k piece) (read_data_bytes id k piece hi hk e)

HonestAnswer-RoundOf :
    {file : Bytes} {id len off : ℕ} {r : Outcome}
    → id < 2 ^ 32
    → len < 2 ^ 32
    → HonestAnswer file id len off r
    → RoundOf file len off (read_response id r)
HonestAnswer-RoundOf {id} hi hl (ended e hc hm hg over) =
    round_ends over (read_status_lem id e hi hc hm hg)
HonestAnswer-RoundOf {file} {id} {len} {off} hi hl (delivered k some_bytes few inside) =
    round_copies k some_bytes few inside (
      read_data_lem id k _ hi (omega arith)
        (omega (arith, length-take k (drop off file), length-drop off file)))

RoundOf-cast :
    {file : Bytes} {len len' off off' : ℕ} {r : Round}
    → len ≡ len'
    → off ≡ off'
    → RoundOf file len off r
    → RoundOf file len' off' r
RoundOf-cast e e' h = rw (← e) (rw (← e') h)

module _ {W : Type 0} (send : Sender W) (handle file : Bytes)
    (honest : IsHonest send handle file) where
  -- The request of a round, and the client behind it.
  abbrev pub asked : ℕ → ℕ → Bytes → Client W → Outcome × Client W
  asked size off so_far c =
      send_request send
        (λ i.
          plain (read i ((size - length so_far) % 2 ^ 32) ((off + length so_far) % 2 ^ 64) handle))
        c

  pub round_lem :
      (size off : ℕ) (so_far : Bytes) (c : Client W)
      → length so_far < size
      → size < 2 ^ 32
      → off + size < 2 ^ 64
      → RoundOf file
          (size - length so_far)
          (off + length so_far)
          (read_response (next_id c.nextid) (asked size off so_far c).0)
  unfolding send_request next_id IsHonest
  round_lem size off so_far c more small inside = RoundOf-cast (omega arith) (omega arith) (
      HonestAnswer-RoundOf (omega arith) (omega arith) (
        honest (next_id c.nextid) ((size - length so_far) % 2 ^ 32) ((off + length so_far) % 2 ^ 64)
          c.conn (omega arith) (omega arith)))
