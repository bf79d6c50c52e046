-- ===== src/Server/Handles/Fresh.antt =====
-- Handles name one file each, and are never given out again.
use sftp_go.Base.{
  ℕ, ◌+◌, ◌%◌, ◌^◌, ◌<◌, ◌≤◌, ◌≡◌, ◌≢◌, refl, sym, ◌∙◌, ap, arith, none, some, List, [], ◌∷◌,
  length, same_bytes, same_bytes_iff, same_bytes_refl, Option-cases, inl, inr, Bool-cases, false,
}
use sftp_go.Wire.{Bytes}
use sftp_go.Server.Handles.{
  HandleTable, look_up, delete, no_handles, next_handle, get_handle, close_handle, Use, opens,
  closes, use_handle, use_handles,
}
use sftp_go.Server.Handles.Decimal.{itoa, itoa_injective}

pub differ : (a b : Bytes) → same_bytes a b ≡ false → a ≢ b
differ a b h e = cc (h, (same_bytes_iff a b).1 e)

module _ {F : Type 0} where
  look_up-delete_same : (h : Bytes) (xs : List (Bytes × F)) → look_up h (delete h xs) ≡ none
  unfolding look_up delete
  look_up-delete_same h [] = refl
  look_up-delete_same h ((k, f) ∷ xs) = ground (arith, look_up-delete_same h xs)

  look_up-delete_other :
      (k h : Bytes) (xs : List (Bytes × F)) → k ≢ h → look_up k (delete h xs) ≡ look_up k xs
  unfolding look_up delete
  look_up-delete_other k h [] d = refl
  look_up-delete_other k h ((j, f) ∷ xs) d =
      ground (arith, look_up-delete_other k h xs d, same_bytes_iff j k, same_bytes_iff j h)

  -- The handle is one that the counter has reached.
  abbrev pub Issued : Bytes → HandleTable F → Type 0
  Issued h t = (i : ℕ) × (i ≤ t.handle_count) × (h ≡ itoa i)

  -- Every handle of the table has been issued.
  abbrev pub Numbered : HandleTable F → Type 0
  Numbered t = (h : Bytes) → get_handle h t ≢ none → Issued h t

  next_ne :
      (f : F) (t : HandleTable F) (h : Bytes)
      → t.handle_count + 1 < 2 ^ 63
      → Issued h t
      → h ≢ (next_handle f t).0
  unfolding next_handle
  next_ne f t h room (i, le, e) same =
      let count : (t.handle_count + 1) % 2 ^ 64 ≡ t.handle_count + 1 = omega arith in
      let equal : i ≡ t.handle_count + 1 =
        itoa_injective i (t.handle_count + 1) (omega arith) room (sym e ∙ (same ∙ ap itoa count)) in
      omega (arith, equal)

  pub get_handle-next_handle_other :
      (f : F) (t : HandleTable F) (k : Bytes)
      → k ≢ (next_handle f t).0
      → get_handle k (next_handle f t).1 ≡ get_handle k t
  unfolding get_handle next_handle look_up
  get_handle-next_handle_other f t k d =
      let h : Bytes = itoa ((t.handle_count + 1) % 2 ^ 64) in
      ground (arith, same_bytes_iff h k, look_up-delete_other k h t.open_files)

  pub get_handle-next_handle :
      (f : F) (t : HandleTable F) → get_handle (next_handle f t).0 (next_handle f t).1 ≡ some f
  unfolding get_handle next_handle look_up
  get_handle-next_handle f t = rw (same_bytes_refl (itoa ((t.handle_count + 1) % 2 ^ 64))) refl

  unknown_of :
      (h : Bytes) (t : HandleTable F) → Numbered t → (Issued h t → ⊥) → get_handle h t ≡ none
  unknown_of h t v d = elim (Option-cases (get_handle h t)) [
    | inl e ↦ e
    | inr (g, e) ↦ absurd (d (v h (λ n. some_ne_none (sym e ∙ n))))
  ]
    where
      some_ne_none : {g : F} → some g ≢ none
      some_ne_none e = cc

  -- Opening a file gives a handle that no open file has; it names the new file, and every other
  -- handle names what it did; while the counter is below 2 ^ 63 - 1.
  pub next_handle_fresh :
      (f : F) (t : HandleTable F)
      → Numbered t
      → t.handle_count + 1 < 2 ^ 63
      → (get_handle (next_handle f t).0 t ≡ none)
        × (get_handle (next_handle f t).0 (next_handle f t).1 ≡ some f)
        × ((k : Bytes)
            → k ≢ (next_handle f t).0
            → get_handle k (next_handle f t).1 ≡ get_handle k t)
  next_handle_fresh f t v room = (
    unknown_of _ t v (λ i. next_ne f t _ room i refl),
    get_handle-next_handle f t,
    get_handle-next_handle_other f t,
  )

  close_unknown :
      (h : Bytes) (t : HandleTable F) → get_handle h t ≡ none → close_handle h t ≡ (none, t)
  unfolding close_handle get_handle
  close_unknown h t e = rw (close_handle, e) refl

  close_known :
      (h : Bytes) (t : HandleTable F) (f : F)
      → get_handle h t ≡ some f
      → close_handle h t ≡ (some f, record t { open_files = delete h t.open_files })
  unfolding close_handle get_handle
  close_known h t f e = rw (close_handle, e) refl

  -- Closing a handle returns the file that it named, leaves it unknown, and every other as it was.
  pub close_handle_lem :
      (h : Bytes) (t : HandleTable F)
      → ((close_handle h t).0 ≡ get_handle h t)
        × (get_handle h (close_handle h t).1 ≡ none)
        × ((k : Bytes) → k ≢ h → get_handle k (close_handle h t).1 ≡ get_handle k t)
  unfolding get_handle
  close_handle_lem h t = elim (Option-cases (get_handle h t)) [
    | inl e ↦ rw (close_unknown h t e) (sym e, e, λ k d. refl)
    | inr (f, e) ↦
        rw (close_known h t f e) (
          sym e,
          look_up-delete_same h t.open_files,
          λ k d. look_up-delete_other k h t.open_files d,
        )
  ]

  -- A history leaves room when even one file per step keeps the counter below 2 ^ 63.
  abbrev pub HasRoom : List (Use F) → HandleTable F → Type 0
  HasRoom us t = t.handle_count + length us < 2 ^ 63

  use_handle_count :
      (u : Use F) (t : HandleTable F)
      → t.handle_count + 1 < 2 ^ 63
      → (t.handle_count ≤ (use_handle u t).handle_count)
        × ((use_handle u t).handle_count ≤ t.handle_count + 1)
  unfolding use_handle next_handle close_handle
  use_handle_count (opens f) t room = (omega arith, omega arith)
  use_handle_count (closes h) t room = elim (Option-cases (get_handle h t)) [
    | inl e ↦ rw (use_handle, close_unknown h t e) (omega arith, omega arith)
    | inr (f, e) ↦ rw (use_handle, close_known h t f e) (omega arith, omega arith)
  ]

  -- A handle that was issued and names no file, since it was closed, names none after a history of
  -- opens and closes: it is not given out again; for a history that leaves the counter, which wraps
  -- around at 2 ^ 64, below 2 ^ 63 even if every step opens a file.
  pub closed_stays_closed :
      (us : List (Use F)) (t : HandleTable F) (h : Bytes)
      → Issued h t
      → get_handle h t ≡ none
      → HasRoom us t
      → get_handle h (use_handles us t) ≡ none
  unfolding use_handles use_handle
  closed_stays_closed [] t h i e room = e
  closed_stays_closed (u ∷ us) t h (i, le, eh) e room =
      let (up, near) = use_handle_count u t (omega arith) in
      closed_stays_closed us (use_handle u t) h (i, omega arith, eh) (still u) (omega arith)
    where
      still : (v : Use F) → get_handle h (use_handle v t) ≡ none
      still (opens f) =
          get_handle-next_handle_other f t h (next_ne f t h (omega arith) (i, le, eh)) ∙ e
      still (closes k) = elim (Bool-cases (same_bytes h k)) [
        | inl same ↦ rw ((same_bytes_iff h k).0 same) ((close_handle_lem k t).1)
        | inr other ↦ (close_handle_lem k t).2 h (differ h k other) ∙ e
      ]

  next_handle_count :
      (f : F) (t : HandleTable F)
      → t.handle_count + 1 < 2 ^ 63
      → ((next_handle f t).0 ≡ itoa (t.handle_count + 1))
        × ((next_handle f t).1.handle_count ≡ t.handle_count + 1)
  unfolding next_handle
  next_handle_count f t room =
      let count : (t.handle_count + 1) % 2 ^ 64 ≡ t.handle_count + 1 = omega arith in
      (ap itoa count, count)

  -- A step that leaves the handle's file alone leaves it issued.
  still_Issued :
      (u : Use F) (t : HandleTable F) (h : Bytes)
      → t.handle_count + 1 < 2 ^ 63
      → Numbered t
      → get_handle h (use_handle u t) ≢ none
      → get_handle h (use_handle u t) ≡ get_handle h t
      → Issued h (use_handle u t)
  still_Issued u t h room v known same =
      let (i, le, e) = v h (λ n. known (same ∙ n)) in
      (i, omega (arith, (use_handle_count u t room).0), e)

  step-Numbered :
      (u : Use F) (t : HandleTable F)
      → t.handle_count + 1 < 2 ^ 63
      → Numbered t
      → Numbered (use_handle u t)
  unfolding use_handle
  step-Numbered (opens f) t room v h known = elim (Bool-cases (same_bytes h (next_handle f t).0)) [
    | inl same ↦
        let (name, count) = next_handle_count f t room in
        (
          t.handle_count + 1,
          omega (arith, count),
          (same_bytes_iff h (next_handle f t).0).0 same ∙ name,
        )
    | inr other ↦
        still_Issued (opens f) t h room v known
          (get_handle-next_handle_other f t h (differ h _ other))
  ]
  step-Numbered (closes k) t room v h known = elim (Bool-cases (same_bytes h k)) [
    | inl same ↦ absurd (known (rw ((same_bytes_iff h k).0 same) ((close_handle_lem k t).1)))
    | inr other ↦
        still_Issued (closes k) t h room v known ((close_handle_lem k t).2 h (differ h k other))
  ]

  run-Numbered :
      (us : List (Use F)) (t : HandleTable F)
      → HasRoom us t
      → Numbered t
      → Numbered (use_handles us t)
  unfolding use_handles
  run-Numbered [] t room v = v
  run-Numbered (u ∷ us) t room v =
      let (_, near) = use_handle_count u t (omega arith) in
      run-Numbered us (use_handle u t) (omega arith) (step-Numbered u t (omega arith) v)

  -- From the empty table, every history of fewer than 2 ^ 63 steps keeps every open handle one that has
  -- been issued.
  pub use_handles-Numbered :
      (us : List (Use F)) → length us < 2 ^ 63 → Numbered (use_handles us no_handles)
  unfolding no_handles get_handle look_up
  use_handles-Numbered us room =
      run-Numbered us no_handles (omega arith) λ h known. absurd (known refl)
