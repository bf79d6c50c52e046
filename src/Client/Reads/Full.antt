-- ===== src/Client/Reads/Full.antt =====
-- A request of a concurrent read, against a server that answers in full: with all the bytes that were
-- asked for, or all that the file has there.
use sftp_go.Base.{
  ℕ, ◌+◌, ◌^◌, ◌<◌, ◌≤◌, ◌≡◌, ap, sym, arith, some, [], ◌++◌, length, length-take, length-drop,
  take, drop,
}
use sftp_go.Wire.{Bytes}
use sftp_go.Packet.{read}
use sftp_go.Packet.Fxp
use sftp_go.Response.{StatusError, marshal_status_packet, marshal_data}
use sftp_go.ClientConn.{Outcome, packet}
use sftp_go.Client.{eof, Sender, plain}
use sftp_go.Base.{◌∷◌, take_all, suc, zero, Option, if◌then◌else◌, none, ltb, ◌⊎◌, inl, inr}
use sftp_go.Client.Reads.{copied, read_work}
use sftp_go.Client.Reads.Honest.{read_status_lem, read_data_lem}
use sftp_go.Client.Reads.Parts.{read_error, error-beyond}
use sftp_go.Client.{ClientError}
use sftp_go.Base.{refl}

pub data FullAnswer (file : Bytes) (id len off : ℕ) : Outcome → Type 0 where
  full_end :
      (e : StatusError)
      → e.code ≡ 1
      → length e.msg < 2 ^ 32
      → length e.lang < 2 ^ 32
      → length file ≤ off
      → FullAnswer file id len off (packet Fxp.status (drop 5 (marshal_status_packet id e)))
  full_data :
      (k : ℕ)
      → 0 < k
      → k ≤ len
      → off + k ≤ length file
      → (k ≡ len) ⊎ (off + k ≡ length file)
      → FullAnswer file id len off (
          packet Fxp.content (
            drop 5 (
              (marshal_data id k (take k (drop off file))).0
              ++ (marshal_data id k (take k (drop off file))).1)))

-- The server behind the connection has the regular file open under the handle.
unfoldable pub IsFull : {W : Type 0} → Sender W → Bytes → Bytes → Type 0
IsFull {W} send handle file =
    (id len off : ℕ) (w : W)
    → id < 2 ^ 32
    → 0 < len
    → FullAnswer file id len off (send (plain (read id len off handle)) w).0

pub take-take : (m n : ℕ) (xs : Bytes) → m ≤ n → take m (take n xs) ≡ take m xs
take-take zero n xs h = refl
take-take (suc m) zero xs h = absurd (omega arith)
take-take (suc m) (suc n) [] h = refl
take-take (suc m) (suc n) (x ∷ xs) h = ap (◌∷◌ x) (take-take m n xs (omega arith))

take-nothing : (m : ℕ) (xs : Bytes) → length xs ≡ 0 → [] ≡ take m xs
take-nothing zero xs e = refl
take-nothing (suc m) [] e = refl
take-nothing (suc m) (x ∷ xs) e = absurd (omega arith)

some-pair :
    {p p' : Bytes} {e e' : Option ClientError}
    → p ≡ p'
    → e ≡ e'
    → ◌≡◌ {A = Option (Bytes × Option ClientError)} (some (p, e)) (some (p', e'))
some-pair h h' = rw h (rw h' refl)

-- What a worker has of it, in a part of the slice that has no more room than was asked for.
pub read_work-FullAnswer :
    (file : Bytes) (id len off room : ℕ) (r : Outcome)
    → id < 2 ^ 32
    → len < 2 ^ 32
    → 0 < room
    → room ≤ len
    → FullAnswer file id len off r
    → read_work (record { read_id = id; read_off = off; room = room; reply = r })
      ≡ some (take room (drop off file), read_error file room off)
unfolding read_work copied
read_work-FullAnswer file id len off room r hi hl some_room fits (full_end e hc hm hg over) =
    rw (read_work, read_status_lem id e hi hc hm hg)
      (some-pair (take-nothing room (drop off file) (omega (arith, length-drop off file)))
        (sym (error-beyond file room off (omega arith) some_room)))
read_work-FullAnswer file id len off room r hi hl some_room fits
      (full_data k some_bytes few within all) =
    rw
      (
        read_work,
        read_data_lem id k (take k (drop off file)) hi (omega arith)
            (omega (arith, length-take k (drop off file), length-drop off file)),
      )
      (some-pair (same_bytes all) error_same)
  where
    same_bytes :
        (k ≡ len) ⊎ (off + k ≡ length file)
        → take room (take k (drop off file)) ≡ take room (drop off file)
    same_bytes (inl e) = take-take room k (drop off file) (omega arith)
    same_bytes (inr e) =
        ap (take room) (take_all k (drop off file) (omega (arith, length-drop off file)))

    error_same :
        (if ltb (length (take room (take k (drop off file)))) room then some eof else none)
        ≡ read_error file room off
    error_same = ground (
      arith,
      length-take room (take k (drop off file)),
      length-take k (drop off file),
      length-drop off file,
      all,
    )
