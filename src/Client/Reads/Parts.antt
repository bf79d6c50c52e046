-- ===== src/Client/Reads/Parts.antt =====
-- The bytes of a file from an offset on, as reads put them together.
use sftp_go.Base.{
  ℕ, ◌+◌, ◌-◌, ◌<◌, ◌≤◌, ◌≡◌, refl, ap, ◌∙◌, sym, arith, Option, none, some, ◌++◌, length,
  length-append, length-take, length-drop, drop-drop, take_then, take_all, take, drop, leb,
  if◌then◌else◌,
}
use sftp_go.Wire.{Bytes}
use sftp_go.Client.{ClientError, eof}

-- The error of a read of so many bytes at an offset: EOF where the file has fewer.
abbrev pub read_error : Bytes → ℕ → ℕ → Option ClientError
read_error file size off = if leb size (length file - off) then none else some eof

module _ (file : Bytes) where
  -- What is read so far is the file from the offset on.
  abbrev pub IsPart : ℕ → Bytes → Type 0
  IsPart off so_far = so_far ≡ take (length so_far) (drop off file)

  unfoldable pub next_piece : ℕ → ℕ → Bytes → Bytes
  next_piece off k so_far = take k (drop (off + length so_far) file)

  pub length-append-next_piece :
      (off k : ℕ) (so_far : Bytes)
      → off + length so_far + k ≤ length file
      → length (so_far ++ next_piece off k so_far) ≡ length so_far + k
  unfolding next_piece
  length-append-next_piece off k so_far h =
      let from : Bytes = drop (off + length so_far) file in
      omega (
        arith,
        length-append so_far (take k from),
        length-take k from,
        length-drop (off + length so_far) file,
      )

  pub append-next_piece-IsPart :
      (off k : ℕ) (so_far : Bytes)
      → IsPart off so_far
      → off + length so_far + k ≤ length file
      → IsPart off (so_far ++ next_piece off k so_far)
  unfolding next_piece
  append-next_piece-IsPart off k so_far e h =
      let n : ℕ = length so_far in
      ap (λ d. so_far ++ take k d) (sym (drop-drop off n (off + n) file refl))
      ∙ ap (◌++ take k (drop n (drop off file))) e
      ∙ take_then n k _ (drop off file) (sym (length-append-next_piece off k so_far h))

  pub whole :
      (size off : ℕ) (so_far : Bytes)
      → IsPart off so_far
      → length so_far ≡ size
      → (so_far ≡ take size (drop off file)) × (none ≡ read_error file size off)
  whole size off so_far part e = (
    part ∙ ap (λ n. take n (drop off file)) e,
    ground (
      arith,
      ap length part,
      length-take (length so_far) (drop off file),
      length-drop off file,
      e,
    ),
  )

  pub cut_off :
      (size off : ℕ) (so_far : Bytes)
      → IsPart off so_far
      → length so_far < size
      → length file ≤ off + length so_far
      → (so_far ≡ take size (drop off file)) × (some eof ≡ read_error file size off)
  cut_off size off so_far part more over = (
    part
        ∙ take_all (length so_far) (drop off file) (omega (arith, length-drop off file))
        ∙ sym (take_all size (drop off file) (omega (arith, length-drop off file))),
    ground arith,
  )

  -- A piece of so many bytes where the file ends before.
  pub last_piece :
      (size off k : ℕ) (so_far : Bytes)
      → 0 < k
      → IsPart off so_far
      → length so_far + k ≤ size
      → length file < off + length so_far + k
      → (so_far ++ next_piece off k so_far ≡ take size (drop off file))
        × (some eof ≡ read_error file size off)
  unfolding next_piece
  last_piece size off k so_far some_bytes e fits over = (
    ap (λ d. so_far ++ take k d)
          (sym (drop-drop off (length so_far) (off + length so_far) file refl))
        ∙ ap (◌++ take k (drop (length so_far) (drop off file))) e
        ∙ take_then (length so_far) k (length so_far + k) (drop off file) refl
        ∙ take_all (length so_far + k) (drop off file) (omega (arith, length-drop off file))
        ∙ sym (take_all size (drop off file) (omega (arith, length-drop off file))),
    ground arith,
  )

  pub error-beyond : (k at : ℕ) → length file < at + k → 0 < k → read_error file k at ≡ some eof
  error-beyond k at h some_bytes = ground arith

  pub error-within : (k at : ℕ) → ¬ (length file < at + k) → read_error file k at ≡ none
  error-within k at h = ground arith
