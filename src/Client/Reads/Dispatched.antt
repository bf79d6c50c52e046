-- ===== src/Client/Reads/Dispatched.antt =====
-- The requests of a concurrent read against a server that answers in full.
use sftp_go.Base.{
  ℕ, zero, suc, ◌+◌, ◌%◌, ◌^◌, ◌<◌, ◌≤◌, ◌≡◌, refl, arith, some, List, [], ◌∷◌, length, take, drop,
  ltb-true, ltb-false,
}
use native.Mathlib.Decide.{dec_lt}
use sftp_go.Wire.{Bytes}
use sftp_go.Packet.{read}
use sftp_go.ClientConn.{Outcome, next_id}
use sftp_go.Client.{Client, Sender, plain, send_request}
use sftp_go.Client.Reads.{ReadWork, read_work, gather, dispatch_reads}
use sftp_go.Client.Reads.Parts.{read_error}
use sftp_go.Client.Reads.Sequential.{round_size, round_size-bounds}
use sftp_go.Client.Reads.Full.{IsFull, read_work-FullAnswer}
use sftp_go.Client.Reads.Merged.{Gathered, gathered_none, merge-Gathered}

module _ {W : Type 0} (send : Sender W) (handle file : Bytes) (full : IsFull send handle file)
    (max_packet size off : ℕ) where
  abbrev asked : ℕ → Client W → Outcome × Client W
  asked n c =
      send_request send (λ i. plain (read i (max_packet % 2 ^ 32) ((off + n) % 2 ^ 64) handle)) c

  abbrev others : ℕ → ℕ → Client W → List ReadWork × Client W
  others rounds n c =
      dispatch_reads send handle max_packet rounds size off (n + round_size max_packet size n)
        (asked n c).1

  dispatch_reads_over :
      (rounds n : ℕ) (c : Client W)
      → ¬ (n < size)
      → dispatch_reads send handle max_packet rounds size off n c ≡ ([], c)
  unfolding dispatch_reads
  dispatch_reads_over zero n c over = refl
  dispatch_reads_over (suc rounds) n c over = rw (dispatch_reads, ltb-false over) refl

  dispatch_reads_go_on :
      (rounds n : ℕ) (c : Client W)
      → n < size
      → dispatch_reads send handle max_packet (suc rounds) size off n c ≡ (
        record {
          read_id = (asked n c).1.nextid;
          read_off = off + n;
          room = round_size max_packet size n;
          reply = (asked n c).0;
        }
            ∷ (others rounds n c).0,
        (others rounds n c).1,
      )
  unfolding dispatch_reads round_size
  dispatch_reads_go_on rounds n c more = rw (dispatch_reads, ltb-true more) refl

  pub length-dispatch_reads :
      (rounds n : ℕ) (c : Client W)
      → length (dispatch_reads send handle max_packet rounds size off n c).0 ≤ rounds
  unfolding dispatch_reads
  length-dispatch_reads zero n c = omega arith
  length-dispatch_reads (suc rounds) n c = elim (dec_lt n size) [
    | no over ↦ rw (dispatch_reads_over (suc rounds) n c over) (omega arith)
    | yes more ↦ rw (dispatch_reads_go_on rounds n c more) (
        omega
          (arith, length-dispatch_reads rounds (n + round_size max_packet size n) (asked n c).1))
  ]

  work_lem :
      (n : ℕ) (c : Client W)
      → 0 < max_packet
      → max_packet < 2 ^ 32
      → off + size < 2 ^ 64
      → n < size
      → read_work (record {
        read_id = (asked n c).1.nextid;
        read_off = off + n;
        room = round_size max_packet size n;
        reply = (asked n c).0;
      })
        ≡ some (
          take (round_size max_packet size n) (drop (off + n) file),
          read_error file (round_size max_packet size n) (off + n),
        )
  unfolding send_request next_id IsFull
  work_lem n c some_packet small inside more =
      let (some_room, few, few') = round_size-bounds max_packet size n some_packet more in
      rw len_eq (
        rw at_eq (
          read_work-FullAnswer file (next_id c.nextid) max_packet (off + n)
            (round_size max_packet size n) _ (omega arith) small some_room few'
            (full (next_id c.nextid) max_packet (off + n) c.conn (omega arith) some_packet)))
    where
      len_eq : max_packet % 2 ^ 32 ≡ max_packet
      len_eq = omega arith

      at_eq : (off + n) % 2 ^ 64 ≡ off + n
      at_eq = omega arith

  pub dispatch_reads-Gathered :
      (rounds n : ℕ) (c : Client W)
      → 0 < max_packet
      → max_packet < 2 ^ 32
      → off + size < 2 ^ 64
      → n ≤ size
      → size ≤ rounds + n
      → Gathered file
          (off + n)
          (off + size)
          (gather (dispatch_reads send handle max_packet rounds size off n c).0)
  unfolding gather
  dispatch_reads-Gathered zero n c some_packet small inside fits enough =
      rw (dispatch_reads_over zero n c (omega arith)) (gathered_none (omega arith))
  dispatch_reads-Gathered (suc rounds) n c some_packet small inside fits enough =
      elim (dec_lt n size) [
        | no over ↦ rw (dispatch_reads_over (suc rounds) n c over) (gathered_none (omega arith))
        | yes more ↦
            let (some_room, few, few') = round_size-bounds max_packet size n some_packet more in
            let next : ℕ = n + round_size max_packet size n in
            let g =
              dispatch_reads-Gathered rounds next (asked n c).1 some_packet small inside
                (omega arith) (omega arith) in
            rw (dispatch_reads_go_on rounds n c more) (
              merge-Gathered file (off + n) (round_size max_packet size n) (off + size) _ _ _
                some_room (omega arith) (rw (assoc n) g) _ refl
                (work_lem n c some_packet small inside more))
      ]
    where
      assoc :
          (k : ℕ)
          → off + k + round_size max_packet size k ≡ off + (k + round_size max_packet size k)
      assoc k = omega arith
