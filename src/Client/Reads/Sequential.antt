-- ===== src/Client/Reads/Sequential.antt =====
-- client.go, `readAtSequential` against an honest server: the range of the file, whatever the size of
-- the pieces and of the packets.
use sftp_go.Base.{
  ltb-true, ltb-false, ℕ, zero, suc, ◌+◌, ◌-◌, ◌^◌, ◌<◌, ◌≤◌, ◌≡◌, refl, ◌∙◌, arith, none, some, [],
  ◌++◌, length, take, drop, ltb, if◌then◌else◌,
}
use native.Mathlib.Decide.{dec_lt}
use sftp_go.Wire.{Bytes}
use sftp_go.Client.{ClientError, eof, Client, Sender}
use sftp_go.Client.Reads.{did, read_chunk_at, read_at_rounds, read_at_sequential}
use sftp_go.Client.Reads.Honest.{IsHonest}
use sftp_go.Client.Reads.Parts.{
  read_error, IsPart, next_piece, length-append-next_piece, append-next_piece-IsPart, whole,
  last_piece, error-beyond, error-within,
}
use sftp_go.Client.Reads.Chunk.{did-cong, read_chunk_at-file}

-- The slice that a round reads into.
unfoldable pub round_size : ℕ → ℕ → ℕ → ℕ
round_size max_packet size n = if ltb max_packet (size - n) then max_packet else size - n

pub round_size-bounds :
    (max_packet size n : ℕ)
    → 0 < max_packet
    → n < size
    → (0 < round_size max_packet size n)
      × (round_size max_packet size n ≤ size - n)
      × (round_size max_packet size n ≤ max_packet)
unfolding round_size
round_size-bounds max_packet size n h more = (ground arith, ground arith, ground arith)

module _ {W : Type 0} (send : Sender W) (handle file : Bytes) (honest : IsHonest send handle file)
    (max_packet chunk_fuel : ℕ) where
  rounds_full :
      (fuel size off : ℕ) (so_far : Bytes) (c : Client W)
      → ¬ (length so_far < size)
      → read_at_rounds send handle max_packet chunk_fuel (suc fuel) size off so_far c
        ≡ did so_far none c
  unfolding read_at_rounds
  rounds_full fuel size off so_far c full = rw (read_at_rounds, ltb-false full) refl

  rounds_end :
      (fuel size off : ℕ) (so_far piece : Bytes) (e : ClientError) (c c' : Client W)
      → length so_far < size
      → read_chunk_at send handle chunk_fuel
          (round_size max_packet size (length so_far))
          (off + length so_far)
          []
          c
        ≡ did piece (some e) c'
      → read_at_rounds send handle max_packet chunk_fuel (suc fuel) size off so_far c
        ≡ did (so_far ++ piece) (some e) c'
  unfolding read_at_rounds round_size
  rounds_end fuel size off so_far piece e c c' more er = rw (read_at_rounds, ltb-true more, er) refl

  rounds_go_on :
      (fuel size off : ℕ) (so_far piece : Bytes) (c c' : Client W)
      → length so_far < size
      → read_chunk_at send handle chunk_fuel
          (round_size max_packet size (length so_far))
          (off + length so_far)
          []
          c
        ≡ did piece none c'
      → read_at_rounds send handle max_packet chunk_fuel (suc fuel) size off so_far c
        ≡ read_at_rounds send handle max_packet chunk_fuel fuel size off (so_far ++ piece) c'
  unfolding read_at_rounds round_size
  rounds_go_on fuel size off so_far piece c c' more er = rw (read_at_rounds, ltb-true more, er) refl

  read_at_rounds-file :
      (fuel size off : ℕ) (so_far : Bytes) (c : Client W)
      → 0 < max_packet
      → max_packet < 2 ^ 32
      → IsPart file off so_far
      → length so_far ≤ size
      → size < fuel + length so_far
      → size < chunk_fuel
      → off + size < 2 ^ 64
      → (c' : Client W) × (read_at_rounds send handle max_packet chunk_fuel fuel size off so_far c
          ≡ did (take size (drop off file)) (read_error file size off) c')
  unfolding next_piece
  read_at_rounds-file zero size off so_far c some_room small part fits enough chunk_enough inside =
      absurd (omega arith)
  read_at_rounds-file (suc fuel) size off so_far c some_room small part fits enough chunk_enough
        inside =
      elim (dec_lt (length so_far) size) [
        | no full ↦
            let (bytes, err) = whole file size off so_far part (omega arith) in
            (c, rounds_full fuel size off so_far c full ∙ did-cong c bytes err)
        | yes more ↦
            let k : ℕ = round_size max_packet size (length so_far) in
            let (some_bytes, few, few') =
              round_size-bounds max_packet size (length so_far) some_room more in
            let (c1, er) =
              read_chunk_at-file send handle file honest chunk_fuel k (off + length so_far) [] c
                refl (omega arith) (omega arith) (omega arith) (omega arith) in
            elim (dec_lt (length file) (off + length so_far + k)) [
              | yes over ↦
                  let (bytes, err) =
                    last_piece file size off k so_far some_bytes part (omega arith) over in
                  (
                    c1,
                    rounds_end fuel size off so_far _ eof c c1 more (
                          er
                          ∙ did-cong c1 refl
                              (error-beyond file k (off + length so_far) over some_bytes))
                        ∙ did-cong c1 bytes err,
                  )
              | no within ↦
                  let inside_file : off + length so_far + k ≤ length file = omega arith in
                  let n = length-append-next_piece file off k so_far inside_file in
                  let (c', h) =
                    read_at_rounds-file fuel size off (so_far ++ next_piece file off k so_far) c1
                      some_room small (append-next_piece-IsPart file off k so_far part inside_file)
                      (omega arith) (omega arith) chunk_enough inside in
                  (
                    c',
                    rounds_go_on fuel size off so_far _ c c1 more
                          (er ∙ did-cong c1 refl (error-within file k (off + length so_far) within))
                        ∙ h,
                  )
            ]
      ]

-- A read of a range of a file by packets of a size from 1 to 2 ^ 32 - 1, one after the other, for a
-- range that ends below 2 ^ 64, against a server that answers each request with at least one byte of
-- the file or with its end: the loop ends, with more fuel than bytes asked for, and it gives the bytes
-- of the file in that range, with the error EOF exactly if the file has fewer.
pub read_at_sequential-file :
    {W : Type 0} (send : Sender W) (handle file : Bytes)
    → IsHonest send handle file
    → (max_packet fuel size off : ℕ) (c : Client W) → 0 < max_packet
    → max_packet < 2 ^ 32
    → off + size < 2 ^ 64
    → size < fuel
    → (c' : Client W) × (read_at_sequential send handle max_packet fuel size off c
        ≡ did (take size (drop off file)) (read_error file size off) c')
unfolding read_at_sequential
read_at_sequential-file send handle file honest max_packet fuel size off c some_room small inside
      enough =
    read_at_rounds-file send handle file honest max_packet fuel fuel size off [] c some_room small
      refl (omega arith) (omega arith) enough inside
