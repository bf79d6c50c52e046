-- ===== src/Client/Reads/Earliest.antt =====
-- The error that is reported of several, in whatever order they arrive.
use sftp_go.Base.{
  ℕ, ◌≤◌, ◌≡◌, refl, sym, ap, ◌∙◌, arith, true, false, none, some, List, [], ◌∷◌, ◌⊎◌, inl, inr,
  leb, Bool-cases,
}
use sftp_go.Client.{ClientError, eof}
use sftp_go.Client.Schedule.{earliest_error}

abbrev pub Occurs : ℕ × ClientError → List (ℕ × ClientError) → Type 0
Occurs e [] = ⊥
Occurs e (x ∷ xs) = (e ≡ x) ⊎ Occurs e xs

-- Every error is EOF, at an offset or behind it.
abbrev pub IsLate : ℕ → List (ℕ × ClientError) → Type 0
IsLate m xs = (e : ℕ × ClientError) → Occurs e xs → (m ≤ e.0) × (e.1 ≡ eof)

earliest_error-some :
    (m : ℕ) (xs : List (ℕ × ClientError)) (f : ℕ × ClientError)
    → (m ≤ f.0) × (f.1 ≡ eof)
    → IsLate m xs
    → (f.0 ≡ m) ⊎ Occurs (m, eof) xs
    → earliest_error (some f) xs ≡ some (m, eof)
unfolding earliest_error
earliest_error-some m [] f (le, e) late (inl same) =
    ap (λ i. some (i, f.1)) same ∙ ap (λ x. some (m, x)) e
earliest_error-some m [] f h late (inr none_left) = absurd none_left
earliest_error-some m (x ∷ xs) f h late found = elim (Bool-cases (leb x.0 f.0)) [
  | inl before ↦ rw before (
      earliest_error-some m xs x (late x (inl refl)) (λ e o. late e (inr o))
        (nearer x before found (late x (inl refl)).0))
  | inr behind ↦
      rw behind (earliest_error-some m xs f h (λ e o. late e (inr o)) (kept x behind found))
]
  where
    nearer :
        (y : ℕ × ClientError)
        → leb y.0 f.0 ≡ true
        → (f.0 ≡ m) ⊎ Occurs (m, eof) (y ∷ xs)
        → m ≤ y.0
        → (y.0 ≡ m) ⊎ Occurs (m, eof) xs
    nearer y before (inl same) at_least = inl (ground arith)
    nearer y before (inr (inl e)) at_least = inl (sym (ap (λ p. p.0) e))
    nearer y before (inr (inr o)) at_least = inr o

    kept :
        (y : ℕ × ClientError)
        → leb y.0 f.0 ≡ false
        → (f.0 ≡ m) ⊎ Occurs (m, eof) (y ∷ xs)
        → (f.0 ≡ m) ⊎ Occurs (m, eof) xs
    kept y behind (inl same) = inl same
    kept y behind (inr (inl e)) =
        let same : m ≡ y.0 = ap (λ p. p.0) e in let le : m ≤ f.0 = h.0 in absurd (ground arith)
    kept y behind (inr (inr o)) = inr o

pub earliest_error-late :
    (m : ℕ) (xs : List (ℕ × ClientError))
    → IsLate m xs
    → Occurs (m, eof) xs
    → earliest_error none xs ≡ some (m, eof)
unfolding earliest_error
earliest_error-late m [] late found = absurd found
earliest_error-late m (x ∷ xs) late (inl e) =
    earliest_error-some m xs x (late x (inl refl)) (λ e' o. late e' (inr o))
      (inl (sym (ap (λ p. p.0) e)))
earliest_error-late m (x ∷ xs) late (inr o) =
    earliest_error-some m xs x (late x (inl refl)) (λ e' o'. late e' (inr o')) (inr o)
