-- ===== src/Client/Reads/Merged.antt =====
-- What `readAt` merges from the answers of its concurrent requests.
use Prim.Native.Nat.{min}
use sftp_go.Base.{
  ℕ, zero, suc, ◌+◌, ◌-◌, ◌<◌, ◌≤◌, ◌≡◌, refl, sym, ap, ◌∙◌, arith, Option, none, some, List, [],
  ◌∷◌, ◌++◌, ◌⊎◌, inl, inr, append_assoc, append-nil, length, length-take, length-drop, drop-drop,
  take_then, take_all, take-append, take, drop, replicate,
}
use native.Mathlib.Decide.{dec_lt}
use sftp_go.Wire.{Bytes}
use sftp_go.Client.{ClientError, eof}
use sftp_go.Client.Reads.{ReadWork, read_work, merge_work, gather}
use sftp_go.Client.Reads.Parts.{read_error, error-beyond, error-within}
use sftp_go.Client.Reads.Earliest.{Occurs, IsLate}
use sftp_go.ClientConn.{Outcome}

-- From the first bytes on, up to the end of the slice: all of the file's bytes and no error; or the
-- file ends before, and its end is the first error.
pub data Gathered (file : Bytes) (at end : ℕ)
    : Option (Bytes × List (ℕ × ClientError)) → Type 0 where
  gathered_none : at ≡ end → Gathered file at end (some ([], []))
  gathered_all :
      (buf : Bytes)
      → at < end
      → end ≤ length file
      → buf ≡ take (end - at) (drop at file)
      → Gathered file at end (some (buf, []))
  gathered_cut :
      (m : ℕ) (buf : Bytes) (errs : List (ℕ × ClientError))
      → length file < end
      → at ≤ m
      → length file ≤ m
      → (m ≡ at) ⊎ (m ≡ length file)
      → take (m - at) buf ≡ drop at file
      → IsLate m errs
      → Occurs (m, eof) errs
      → Gathered file at end (some (buf, errs))

take-behind : (n k : ℕ) (xs ys : Bytes) → length xs + k ≡ n → take n (xs ++ ys) ≡ xs ++ take k ys
take-behind n k [] ys e = ap (λ i. take i ys) e'
  where
    e' : n ≡ k
    e' = omega arith
take-behind zero k (x ∷ xs) ys e = absurd (omega arith)
take-behind (suc n) k (x ∷ xs) ys e = ap (◌∷◌ x) (take-behind n k xs ys (omega arith))

take-drop : (n : ℕ) (xs : Bytes) → take n xs ++ drop n xs ≡ xs
take-drop zero xs = refl
take-drop (suc n) [] = refl
take-drop (suc n) (x ∷ xs) = ap (◌∷◌ x) (take-drop n xs)

module _ (file : Bytes) (at room end : ℕ) (id : ℕ) (r : Outcome) where
  abbrev pub work : ReadWork
  work = record { read_id = id; read_off = at; room = room; reply = r }

  abbrev piece : Bytes
  piece = take room (drop at file)

  length-piece : length piece ≡ min room (length file - at)
  length-piece = omega (arith, length-take room (drop at file), length-drop at file)

  -- A part in which the file ends.
  merge-over :
      (buf : Bytes) (errs : List (ℕ × ClientError))
      → at + room ≤ end
      → length file < at + room
      → IsLate (at + room) errs
      → Gathered file at end (some (merge_work work (piece, some eof) (buf, errs)))
  unfolding merge_work
  merge-over buf errs fits over late =
      gathered_cut (at + length piece) _ _ (omega arith) (omega arith) (omega (arith, length-piece))
        at_end front lates (inl refl)
    where
      at_end : (at + length piece ≡ at) ⊎ (at + length piece ≡ length file)
      at_end = elim (dec_lt at (length file)) [
        | yes before ↦ inr (omega (arith, length-piece))
        | no behind ↦ inl (omega (arith, length-piece))
      ]

      front :
          take (at + length piece - at) ((piece ++ replicate (room - length piece) 0) ++ buf)
          ≡ drop at file
      front =
          ap (take (at + length piece - at)) (append_assoc piece _ buf)
          ∙ ap (λ i. take i (piece ++ (replicate (room - length piece) 0 ++ buf))) len
          ∙ take-append piece _
          ∙ take_all room (drop at file) (omega (arith, length-drop at file))
        where
          len : at + length piece - at ≡ length piece
          len = omega arith

      lates : IsLate (at + length piece) ((at + length piece, eof) ∷ errs)
      lates e (inl same) = (omega (arith, ap (λ p. p.0) same), ap (λ p. p.1) same)
      lates e (inr o) = (omega (arith, (late e o).0, length-piece), (late e o).1)

  -- A part that the file fills.
  full_part : at + room ≤ length file → piece ++ replicate (room - length piece) 0 ≡ piece
  full_part h = ap (λ k. piece ++ replicate k 0) none_left ∙ append-nil piece
    where
      none_left : room - length piece ≡ 0
      none_left = omega (arith, length-piece)

  merge-within :
      (buf : Bytes) (errs : List (ℕ × ClientError))
      → 0 < room
      → at + room ≤ end
      → at + room ≤ length file
      → Gathered file (at + room) end (some (buf, errs))
      → Gathered file at end (some (piece ++ buf, errs))
  merge-within _ _ some_room fits inside (gathered_none e) =
      gathered_all _ (omega arith) (omega arith)
        (append-nil piece ∙ ap (λ k. take k (drop at file)) room_eq)
    where
      room_eq : room ≡ end - at
      room_eq = omega arith
  merge-within _ _ some_room fits inside (gathered_all buf before end_inside e) =
      gathered_all _ (omega arith) end_inside (
        ap (piece ++◌)
          (e ∙ ap (take (end - (at + room))) (sym (drop-drop at room (at + room) file refl)))
        ∙ take_then room (end - (at + room)) (end - at) (drop at file) (omega arith))
  merge-within _ _ some_room fits inside
        (gathered_cut m buf errs short after_at after_end which e late o) =
      gathered_cut m _ errs short (omega arith) after_end (at_end which)
        (take-behind (m - at) (m - (at + room)) piece buf (omega (arith, length-piece))
          ∙ ap (piece ++◌) (e ∙ sym (drop-drop at room (at + room) file refl))
          ∙ take-drop room (drop at file))
        late o
    where
      at_end : (m ≡ at + room) ⊎ (m ≡ length file) → (m ≡ at) ⊎ (m ≡ length file)
      at_end (inl same) = inr (omega arith)
      at_end (inr same) = inr same

  merged-IsLate :
      (buf : Bytes) (errs : List (ℕ × ClientError))
      → length file < at + room
      → Gathered file (at + room) end (some (buf, errs))
      → IsLate (at + room) errs
  merged-IsLate _ _ over (gathered_none e) = λ x o. absurd o
  merged-IsLate _ _ over (gathered_all buf before inside e) = λ x o. absurd o
  merged-IsLate _ _ over (gathered_cut m buf errs short after_at after_end which e late o) =
      λ x o'. (omega (arith, (late x o').0), (late x o').1)

  gather-cons :
      (err : Option ClientError) (buf : Bytes) (errs : List (ℕ × ClientError)) (ws : List ReadWork)
      → read_work work ≡ some (piece, err)
      → gather ws ≡ some (buf, errs)
      → gather (work ∷ ws) ≡ some (merge_work work (piece, err) (buf, errs))
  unfolding gather
  gather-cons err buf errs ws h e = rw (gather, h, e) refl

  merge-step :
      (buf : Bytes) (errs : List (ℕ × ClientError))
      → 0 < room
      → at + room ≤ end
      → Gathered file (at + room) end (some (buf, errs))
      → (ws : List ReadWork) → gather ws ≡ some (buf, errs)
      → read_work work ≡ some (piece, read_error file room at)
      → Gathered file at end (gather (work ∷ ws))
  unfolding merge_work
  merge-step buf errs some_room fits g ws e h = elim (dec_lt (length file) (at + room)) [
    | yes over ↦
        rw
          (gather-cons (some eof) buf errs ws
            (h ∙ ap (λ err. some (piece, err)) (error-beyond file room at over some_room)) e)
          (merge-over buf errs fits over (merged-IsLate buf errs over g))
    | no within ↦
        let inside : at + room ≤ length file = omega arith in
        rw
          (gather-cons none buf errs ws
            (h ∙ ap (λ err. some (piece, err)) (error-within file room at within)) e)
          (rw (full_part inside) (merge-within buf errs some_room fits inside g))
  ]

  pub merge-Gathered :
      (rest : Option (Bytes × List (ℕ × ClientError)))
      → 0 < room
      → at + room ≤ end
      → Gathered file (at + room) end rest
      → (ws : List ReadWork) → gather ws ≡ rest
      → read_work work ≡ some (piece, read_error file room at)
      → Gathered file at end (gather (work ∷ ws))
  merge-Gathered _ some_room fits (gathered_none e') ws e h =
      merge-step [] [] some_room fits (gathered_none e') ws e h
  merge-Gathered _ some_room fits (gathered_all buf b i e') ws e h =
      merge-step buf [] some_room fits (gathered_all buf b i e') ws e h
  merge-Gathered _ some_room fits (gathered_cut m buf errs a b c d e' l o) ws e h =
      merge-step buf errs some_room fits (gathered_cut m buf errs a b c d e' l o) ws e h
