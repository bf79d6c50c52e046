-- ===== src/Client/Reads/Chunk.antt =====
-- `readChunkAt` against an honest server reads its slice, or as much as the file has.
use sftp_go.Base.{
  ltb-true, ltb-false, ℕ, zero, suc, ◌+◌, ◌-◌, ◌^◌, ◌<◌, ◌≤◌, ◌≡◌, refl, ap, ◌∙◌, arith, Option,
  none, ◌++◌, length, length-take, take_all, take, drop,
}
use native.Mathlib.Decide.{dec_lt}
use sftp_go.Wire.{Bytes}
use sftp_go.ClientConn.{next_id}
use sftp_go.Client.{ClientError, Client, Sender, send_request}
use sftp_go.Client.Reads.{did, returns, copies, read_response, read_chunk_at}
use sftp_go.Client.Reads.Honest.{IsHonest, round_ends, round_copies, asked, round_lem}
use sftp_go.Client.Reads.Parts.{
  read_error, IsPart, next_piece, length-append-next_piece, append-next_piece-IsPart, whole,
  cut_off,
}

pub did-cong :
    {W : Type 0} {b b' : Bytes} {e e' : Option ClientError} (c : Client W)
    → b ≡ b'
    → e ≡ e'
    → did b e c ≡ did b' e' c
did-cong c p q = rw p (rw q refl)

module _ {W : Type 0} (send : Sender W) (handle file : Bytes)
    (honest : IsHonest send handle file) where
  -- A round in which the slice is not full.
  read_chunk_at_ends :
      (fuel size off : ℕ) (so_far : Bytes) (c : Client W) (err : Option ClientError)
      → length so_far < size
      → read_response (next_id c.nextid) (asked send handle file honest size off so_far c).0
        ≡ returns err
      → read_chunk_at send handle (suc fuel) size off so_far c
        ≡ did so_far err (asked send handle file honest size off so_far c).1
  unfolding read_chunk_at send_request
  read_chunk_at_ends fuel size off so_far c err more er = rw (read_chunk_at, ltb-true more, er) refl

  read_chunk_at_copies :
      (fuel size off : ℕ) (so_far piece : Bytes) (c : Client W)
      → length so_far < size
      → read_response (next_id c.nextid) (asked send handle file honest size off so_far c).0
        ≡ copies piece
      → read_chunk_at send handle (suc fuel) size off so_far c
        ≡ read_chunk_at send handle fuel size off
            (so_far ++ take (size - length so_far) piece)
            (asked send handle file honest size off so_far c).1
  unfolding read_chunk_at send_request
  read_chunk_at_copies fuel size off so_far piece c more er =
      rw (read_chunk_at, ltb-true more, er) refl

  read_chunk_at_full :
      (fuel size off : ℕ) (so_far : Bytes) (c : Client W)
      → ¬ (length so_far < size)
      → read_chunk_at send handle (suc fuel) size off so_far c ≡ did so_far none c
  unfolding read_chunk_at
  read_chunk_at_full fuel size off so_far c full = rw (read_chunk_at, ltb-false full) refl

  pub read_chunk_at-file :
      (fuel size off : ℕ) (so_far : Bytes) (c : Client W)
      → IsPart file off so_far
      → length so_far ≤ size
      → size < fuel + length so_far
      → size < 2 ^ 32
      → off + size < 2 ^ 64
      → (c' : Client W) × (read_chunk_at send handle fuel size off so_far c
          ≡ did (take size (drop off file)) (read_error file size off) c')
  unfolding next_piece
  read_chunk_at-file zero size off so_far c part fits enough small inside = absurd (omega arith)
  read_chunk_at-file (suc fuel) size off so_far c part fits enough small inside =
      elim (dec_lt (length so_far) size) [
        | no full ↦
            let (bytes, err) = whole file size off so_far part (omega arith) in
            (c, read_chunk_at_full fuel size off so_far c full ∙ did-cong c bytes err)
        | yes more ↦ elim (round_lem send handle file honest size off so_far c more small inside) [
          | round_ends over er ↦
              let (bytes, err) = cut_off file size off so_far part more over in
              (_, read_chunk_at_ends fuel size off so_far c _ more er ∙ did-cong _ bytes err)
          | round_copies k some_bytes few within er ↦
              let n = length-append-next_piece file off k so_far within in
              let (c', h) =
                read_chunk_at-file fuel size off (so_far ++ next_piece file off k so_far)
                  (asked send handle file honest size off so_far c).1
                  (append-next_piece-IsPart file off k so_far part within) (omega arith)
                  (omega arith) small inside in
              (
                c',
                read_chunk_at_copies fuel size off so_far _ c more er
                    ∙ ap
                        (λ p.
                          read_chunk_at send handle fuel size off (so_far ++ p)
                            (asked send handle file honest size off so_far c).1)
                        (take_all (size - length so_far) (next_piece file off k so_far)
                          (omega (arith, length-take k (drop (off + length so_far) file))))
                    ∙ h,
              )
        ]
      ]
