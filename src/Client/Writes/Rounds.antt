-- ===== src/Client/Writes/Rounds.antt =====
-- The loop of `writeAt` against an accepting server.
use sftp_go.Base.{
  ltb-true, ltb-false, ℕ, zero, suc, ◌+◌, ◌^◌, ◌<◌, ◌≤◌, ◌≡◌, refl, ap, ◌∙◌, sym, arith, none,
  length, length-take, length-drop, take_all, take, drop,
}
use native.Mathlib.Decide.{dec_lt}
use sftp_go.Wire.{Bytes}
use sftp_go.Client.{Client, Sender}
use sftp_go.Client.Writes.{wrote, write_chunk_at, write_at_rounds}
use sftp_go.Client.Writes.Store.{store, store-store, Continues, take-drop-piece}
use sftp_go.Client.Writes.Accepted.{IsAccepting, write_chunk_at-store}

module _ {W : Type 0} (send : Sender W) (file_of : W → Bytes) (handle : Bytes)
    (accepting : IsAccepting send file_of handle) where
  -- A round in which not all is written.
  write_at_rounds_go_on :
      (max_packet fuel n k : ℕ) (b : Bytes) (off : ℕ) (c c' : Client W)
      → n < length b
      → write_chunk_at send handle (take max_packet (drop n b)) (off + n) c ≡ wrote k none c'
      → write_at_rounds send handle max_packet (suc fuel) b off n c
        ≡ write_at_rounds send handle max_packet fuel b off (n + k) c'
  unfolding write_at_rounds
  write_at_rounds_go_on max_packet fuel n k b off c c' more er =
      rw (write_at_rounds, ltb-true more, er) refl

  write_at_rounds_over :
      (max_packet fuel n : ℕ) (b : Bytes) (off : ℕ) (c : Client W)
      → length b ≤ n
      → 0 < fuel
      → write_at_rounds send handle max_packet fuel b off n c ≡ wrote (length b) none c
  unfolding write_at_rounds
  write_at_rounds_over max_packet zero n b off c over some_fuel = absurd (omega arith)
  write_at_rounds_over max_packet (suc fuel) n b off c over some_fuel =
      rw (write_at_rounds, ltb-false {m = n} {n = length b} (omega arith)) refl

  pub write_at_rounds-store :
      (max_packet fuel n : ℕ) (b : Bytes) (off : ℕ) (before : Bytes) (c : Client W)
      → 0 < max_packet
      → max_packet < 2 ^ 32
      → off + length b < 2 ^ 64
      → n < length b
      → length b < fuel + n
      → Continues off (take n b) before (file_of c.conn)
      → (c' : Client W) × (write_at_rounds send handle max_packet fuel b off n c
          ≡ wrote (length b) none c')
        × (file_of c'.conn ≡ store off b before)
  write_at_rounds-store max_packet zero n b off before c room small inside more enough cont =
      absurd (omega arith)
  write_at_rounds-store max_packet (suc fuel) n b off before c room small inside more enough cont =
      let piece : Bytes = take max_packet (drop n b) in
      let len_piece = length-take max_packet (drop n b) in
      let len_rest = length-drop n b in
      let len_first : length (take n b) ≡ n = omega (arith, length-take n b) in
      let (c1, er, stored) =
        write_chunk_at-store send file_of handle accepting piece (off + n) c (omega arith)
          (omega arith) in
      let k : ℕ = length piece in
      let stored' : file_of c1.conn ≡ store off (take (n + k) b) before =
        stored
        ∙ ap (λ i. store (off + i) piece (file_of c.conn)) (sym len_first)
        ∙ cont piece
        ∙ ap (λ d. store off d before) (take-drop-piece n max_packet b) in
      let step = write_at_rounds_go_on max_packet fuel n k b off c c1 more er in
      elim (dec_lt (n + k) (length b)) [
        | yes more' ↦
            let (c', result, whole) =
              write_at_rounds-store max_packet fuel (n + k) b off before c1 room small inside more'
                (omega arith)
                (λ d.
                  ap (store (off + length (take (n + k) b)) d) stored'
                  ∙ store-store off _ (take (n + k) b) d before refl) in
            (c', step ∙ result, whole)
        | no done ↦ (
          c1,
          step ∙ write_at_rounds_over max_packet fuel (n + k) b off c1 (omega arith) (omega arith),
          stored' ∙ ap (λ d. store off d before) (take_all (n + k) b (omega arith)),
        )
      ]
