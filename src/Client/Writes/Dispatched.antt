-- ===== src/Client/Writes/Dispatched.antt =====
-- client.go, `writeAtConcurrent` against an accepting server: no worker reports an error.
use sftp_go.Base.{
  ltb-true, ltb-false, ℕ, zero, suc, ◌+◌, ◌^◌, ◌<◌, ◌≤◌, ◌≡◌, refl, ap, ◌∙◌, sym, arith, none, some,
  length, length-take, length-drop, take_all, take, drop,
}
use native.Mathlib.Decide.{dec_lt}
use sftp_go.Wire.{Bytes}
use sftp_go.ClientConn.{Outcome}
use sftp_go.Client.{Client, Sender}
use sftp_go.Client.Writes.{wrote}
use sftp_go.Client.Writes.Store.{store, store-store, Continues, take-drop-piece}
use sftp_go.Client.Writes.Accepted.{IsAccepting}
use sftp_go.Client.Writes.Store.{plus_zero}
use sftp_go.Base.{All, List, [], ◌∷◌}
use sftp_go.Client.Calls.{status_result}
use sftp_go.Client.Writes.{Work, dispatch_writes, work_errors, write_at_concurrent}
use sftp_go.Client.Schedule.{Schedule, earliest_error}
use sftp_go.Client.Writes.Accepted.{request-store, written}

abbrev IsQuiet : Work → Type 0
IsQuiet w = status_result w.work_id w.outcome ≡ some none

take-IsQuiet : (k : ℕ) (ws : List Work) → All IsQuiet ws → All IsQuiet (take k ws)
take-IsQuiet zero ws h = tt
take-IsQuiet (suc k) [] h = tt
take-IsQuiet (suc k) (w ∷ ws) (q, qs) = (q, take-IsQuiet k ws qs)

work_errors-none : (ws : List Work) → All IsQuiet ws → work_errors ws ≡ some []
unfolding work_errors
work_errors-none [] h = refl
work_errors-none (w ∷ ws) (q, qs) = rw (work_errors, q, work_errors-none ws qs) refl

module _ {W : Type 0} (send : Sender W) (file_of : W → Bytes) (handle : Bytes)
    (accepting : IsAccepting send file_of handle) where
  dispatch_writes_over :
      (max_packet rounds n : ℕ) (b : Bytes) (off : ℕ) (c : Client W)
      → length b ≤ n
      → dispatch_writes send handle max_packet rounds b off n c ≡ ([], c)
  unfolding dispatch_writes
  dispatch_writes_over max_packet zero n b off c over = refl
  dispatch_writes_over max_packet (suc rounds) n b off c over =
      rw (dispatch_writes, ltb-false {m = n} {n = length b} (omega arith)) refl

  abbrev sent : ℕ → ℕ → Bytes → ℕ → Client W → Outcome × Client W
  sent max_packet n b off c =
      written send file_of handle accepting (take max_packet (drop n b)) (off + n) c

  abbrev others : ℕ → ℕ → ℕ → Bytes → ℕ → Client W → List Work × Client W
  others max_packet rounds n b off c =
      dispatch_writes send handle max_packet rounds b off (n + length (take max_packet (drop n b)))
        (sent max_packet n b off c).1

  dispatch_writes_go_on :
      (max_packet rounds n : ℕ) (b : Bytes) (off : ℕ) (c : Client W)
      → n < length b
      → dispatch_writes send handle max_packet (suc rounds) b off n c ≡ (
        record {
          work_id = (sent max_packet n b off c).1.nextid;
          work_off = off + n;
          outcome = (sent max_packet n b off c).0;
        }
            ∷ (others max_packet rounds n b off c).0,
        (others max_packet rounds n b off c).1,
      )
  unfolding dispatch_writes
  dispatch_writes_go_on max_packet rounds n b off c more = rw (dispatch_writes, ltb-true more) refl

  dispatch_writes-store :
      (max_packet rounds n : ℕ) (b : Bytes) (off : ℕ) (before : Bytes) (c : Client W)
      → 0 < max_packet
      → max_packet < 2 ^ 32
      → off + length b < 2 ^ 64
      → n < length b
      → length b ≤ rounds + n
      → Continues off (take n b) before (file_of c.conn)
      → All IsQuiet (dispatch_writes send handle max_packet rounds b off n c).0
        × (file_of (dispatch_writes send handle max_packet rounds b off n c).1.conn
            ≡ store off b before)
  dispatch_writes-store max_packet zero n b off before c room small inside more enough cont =
      absurd (omega arith)
  dispatch_writes-store max_packet (suc rounds) n b off before c room small inside more enough
        cont =
      let piece : Bytes = take max_packet (drop n b) in
      let len_piece = length-take max_packet (drop n b) in
      let len_rest = length-drop n b in
      let len_first : length (take n b) ≡ n = omega (arith, length-take n b) in
      let k : ℕ = length piece in
      let c1 : Client W = (written send file_of handle accepting piece (off + n) c).1 in
      let (quiet, stored) =
        request-store send file_of handle accepting piece (off + n) c (omega arith) (omega arith) in
      let stored' : file_of c1.conn ≡ store off (take (n + k) b) before =
        stored
        ∙ ap (λ i. store (off + i) piece (file_of c.conn)) (sym len_first)
        ∙ cont piece
        ∙ ap (λ d. store off d before) (take-drop-piece n max_packet b) in
      elim (dec_lt (n + k) (length b)) [
        | yes more' ↦
            let (quiets, whole) =
              dispatch_writes-store max_packet rounds (n + k) b off before c1 room small inside
                more' (omega arith)
                (λ d.
                  ap (store (off + length (take (n + k) b)) d) stored'
                  ∙ store-store off _ (take (n + k) b) d before refl) in
            rw (dispatch_writes_go_on max_packet rounds n b off c more) ((quiet, quiets), whole)
        | no done ↦ rw (dispatch_writes_go_on max_packet rounds n b off c more) (
            rw (dispatch_writes_over max_packet rounds (n + k) b off c1 (omega arith)) (
              (quiet, tt),
              stored' ∙ ap (λ d. store off d before) (take_all (n + k) b (omega arith)),
            ))
      ]

  pub write_at_concurrent-store :
      (max_packet : ℕ) (schedule : Schedule) (b : Bytes) (off : ℕ) (c : Client W)
      → 0 < max_packet
      → max_packet < 2 ^ 32
      → off + length b < 2 ^ 64
      → 0 < length b
      → length b ≤ schedule.dispatched
      → schedule.arrival [] ≡ []
      → (c' : Client W) × (write_at_concurrent send handle max_packet schedule b off c
          ≡ wrote (length b) none c')
        × (file_of c'.conn ≡ store off b (file_of c.conn))
  unfolding write_at_concurrent earliest_error
  write_at_concurrent-store max_packet schedule b off c room small inside some_bytes enough
        quiet_arrival =
      let (quiets, whole) =
        dispatch_writes-store max_packet schedule.dispatched 0 b off (file_of c.conn) c room small
          inside some_bytes (omega arith)
          (λ d. ap (λ i. store i d (file_of c.conn)) (plus_zero off)) in
      (
        (dispatch_writes send handle max_packet schedule.dispatched b off 0 c).1,
        rw
            (
              write_at_concurrent,
              work_errors-none _ (take-IsQuiet schedule.received _ quiets),
              quiet_arrival,
            )
            refl,
        whole,
      )
