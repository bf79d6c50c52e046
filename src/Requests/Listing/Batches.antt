-- ===== src/Requests/Listing/Batches.antt =====
-- Batches together give the whole directory.
use sftp_go.Base.{
  ℕ, zero, suc, ◌+◌, ◌-◌, ◌<◌, ◌≤◌, ◌≡◌, ◌≢◌, refl, sym, ap, ◌∙◌, arith, ◌⊎◌, inl, inr, some, List,
  [], ◌∷◌, ◌++◌, length, take, drop, length-take, length-drop,
}
use sftp_go.Server.Errors.{eof}
use sftp_go.Requests.Listing.{max_filelist, list_at, names, refused, batch_of, filelist, list_all}

end_or_more : (n m : ℕ) → (n ≤ m) ⊎ (m < n)
end_or_more n m = omega arith

module _ {I : Type 0} where
  drop_all : (n : ℕ) (xs : List I) → length xs ≤ n → drop n xs ≡ []
  drop_all zero [] h = refl
  drop_all zero (x ∷ xs) h = absurd (omega arith)
  drop_all (suc n) [] h = refl
  drop_all (suc n) (x ∷ xs) h = drop_all n xs (omega arith)

  drop_none : (n : ℕ) → drop {A = I} n [] ≡ []
  drop_none zero = refl
  drop_none (suc n) = refl

  take-drop : (n : ℕ) (xs : List I) → take n xs ++ drop (length (take n xs)) xs ≡ xs
  take-drop zero xs = refl
  take-drop (suc n) [] = refl
  take-drop (suc n) (x ∷ xs) = ap (◌∷◌ x) (take-drop n xs)

  drop-drop : (m n : ℕ) (xs : List I) → drop (m + n) xs ≡ drop n (drop m xs)
  drop-drop zero n xs = ap (λ k. drop k xs) (omega arith)
  drop-drop (suc m) n [] = drop_none (suc m + n) ∙ sym (drop_none n)
  drop-drop (suc m) n (x ∷ xs) =
      let next : suc m + n ≡ suc (m + n) = omega arith in
      ap (λ k. drop k (x ∷ xs)) next ∙ drop-drop m n xs

  -- At the end of the directory the answer is an end of file.
  filelist_end :
      (files : List I) (offset : ℕ)
      → length files ≤ offset
      → (filelist (list_at files) offset).0 ≡ refused eof
  unfolding filelist list_at batch_of
  filelist_end files offset h = ground arith

  -- Before it, the next entries, up to a hundred.
  filelist_names :
      (files : List I) (offset : ℕ)
      → offset < length files
      → filelist (list_at files) offset ≡ (
        names (take max_filelist (drop offset files)),
        offset + length (take max_filelist (drop offset files)),
      )
  unfolding filelist list_at batch_of
  filelist_names files offset h =
      let some_left : length (take max_filelist (drop offset files)) ≢ 0 = λ e.
        omega (arith, length-take max_filelist (drop offset files), length-drop offset files, e) in
      ground (arith, some_left)

  -- Asking for batches from an offset until one is refused gives exactly the entries from there on,
  -- in order, and ends with an end of file: none is lost, repeated or reordered; with more steps
  -- than entries left.
  pub list_all-list_at :
      (fuel : ℕ) (files : List I) (offset : ℕ)
      → length files - offset < fuel
      → list_all fuel (list_at files) offset ≡ (drop offset files, some eof)
  unfolding list_all
  list_all-list_at zero files offset h = absurd (omega arith)
  list_all-list_at (suc fuel) files offset h = elim (end_or_more (length files) offset) [
    | inl e ↦ rw (list_all, filelist_end files offset e, drop_all offset files e) refl
    | inr e ↦
        let found : List I = take max_filelist (drop offset files) in
        let moved : length files - (offset + length found) < fuel =
          omega (arith, length-take max_filelist (drop offset files), length-drop offset files) in
        let rest = list_all-list_at fuel files (offset + length found) moved in
        rw
          (
            list_all,
            filelist_names files offset e,
            filelist_names files offset e,
            rest,
            drop-drop offset (length found) files,
            take-drop max_filelist (drop offset files),
          )
          refl
  ]
