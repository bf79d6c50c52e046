-- ===== src/PacketManager/Sorting.antt =====
-- Lists of ordered packets: their order ids, counted and sorted.
use sftp_go.Base.{
  ℕ, suc, ◌+◌, ◌≤◌, ◌<◌, ◌≡◌, refl, arith, List, [], ◌∷◌, ◌++◌, ◌==◌, if◌then◌else◌, ltb, All,
  Bool-cases, inl, inr,
}
use sftp_go.PacketManager.{Ordered, insert, sort}
use mathlib.Core.List.{Perm}
use mathlib.Core.List.Perm

-- How many packets carry an order id.
abbrev pub times : {A : Type 0} → ℕ → List (Ordered A) → ℕ
times i [] = 0
times i (x ∷ xs) = (if x.orderid == i then 1 else 0) + times i xs

-- Order ids grow along the list, from above `k`.
abbrev pub Above : {A : Type 0} → ℕ → List (Ordered A) → Type 0
Above k [] = Unit {0}
Above k (x ∷ xs) = (k < x.orderid) × Above x.orderid xs

-- The order ids are k + 1, k + 2, and so on.
abbrev pub Consecutive : {A : Type 0} → ℕ → List (Ordered A) → Type 0
Consecutive k [] = Unit {0}
Consecutive k (x ∷ xs) = (x.orderid ≡ suc k) × Consecutive (suc k) xs

module _ {A : Type 0} where
  pub times-append :
      (i : ℕ) (xs ys : List (Ordered A)) → times i (xs ++ ys) ≡ times i xs + times i ys
  times-append i [] ys = omega arith
  times-append i (x ∷ xs) ys = omega (arith, times-append i xs ys)

  times-insert :
      (i : ℕ) (x : Ordered A) (ys : List (Ordered A)) → times i (insert x ys) ≡ times i (x ∷ ys)
  unfolding insert
  times-insert i x [] = refl
  times-insert i x (y ∷ ys) = ground (arith, times-insert i x ys)

  pub times-sort : (i : ℕ) (xs : List (Ordered A)) → times i (sort xs) ≡ times i xs
  unfolding sort
  times-sort i [] = refl
  times-sort i (x ∷ xs) = omega (arith, times-insert i x (sort xs), times-sort i xs)

  pub Above-mono : (j k : ℕ) (xs : List (Ordered A)) → j ≤ k → Above k xs → Above j xs
  Above-mono j k [] h a = tt
  Above-mono j k (x ∷ xs) h a = (omega arith, a.1)

  -- What lies above `k` has no packet with an order id up to `k`.
  pub times-Above : (i k : ℕ) (xs : List (Ordered A)) → i ≤ k → Above k xs → times i xs ≡ 0
  times-Above i k [] h a = refl
  times-Above i k (x ∷ xs) h a = ground (arith, times-Above i x.orderid xs)

  insert-Above :
      (k : ℕ) (x : Ordered A) (ys : List (Ordered A))
      → k < x.orderid
      → times x.orderid ys ≡ 0
      → Above k ys
      → Above k (insert x ys)
  unfolding insert
  insert-Above k x [] h t a = (h, tt)
  insert-Above k x (y ∷ ys) h t a = ground (arith, insert-Above y.orderid x ys)

  -- Sorting distinct order ids above `k`.
  pub sort-Above :
      (k : ℕ) (xs : List (Ordered A))
      → ((i : ℕ) → times i xs ≤ 1)
      → All (λ x. k < x.orderid) xs
      → Above k (sort xs)
  unfolding sort
  sort-Above k [] t h = tt
  sort-Above k (x ∷ xs) t (hx, hxs) =
      insert-Above k x (sort xs) hx (ground (arith, times-sort x.orderid xs, t x.orderid))
        (sort-Above k xs (λ i. ground (arith, t i)) hxs)

  insert_front : (x : Ordered A) (xs : List (Ordered A)) → Above x.orderid xs → insert x xs ≡ x ∷ xs
  unfolding insert
  insert_front x [] a = refl
  insert_front x (y ∷ ys) a = ground arith

  -- A sorted list stays as it is.
  pub sort-eq_self : (k : ℕ) (xs : List (Ordered A)) → Above k xs → sort xs ≡ xs
  unfolding sort
  sort-eq_self k [] a = refl
  sort-eq_self k (x ∷ xs) a = rw (sort-eq_self x.orderid xs a.1) (insert_front x xs a.1)

  pub Consecutive-Above : (k : ℕ) (xs : List (Ordered A)) → Consecutive k xs → Above k xs
  Consecutive-Above k [] c = tt
  Consecutive-Above k (x ∷ xs) c = (omega arith, rw c.0 (Consecutive-Above (suc k) xs c.1))

  insert-perm : (x : Ordered A) (ys : List (Ordered A)) → Perm (insert x ys) (x ∷ ys)
  unfolding insert
  insert-perm x [] = Perm.refl _
  insert-perm x (y ∷ ys) = elim (Bool-cases (ltb y.orderid x.orderid)) [
    | inl less ↦ rw less (Perm.trans (Perm.cons y (insert-perm x ys)) (Perm.swap x y ys))
    | inr more ↦ rw more (Perm.refl _)
  ]

  -- Sorting moves the packets and loses none.
  pub sort-perm : (xs : List (Ordered A)) → Perm (sort xs) xs
  unfolding sort
  sort-perm [] = Perm.refl _
  sort-perm (x ∷ xs) = Perm.trans (insert-perm x (sort xs)) (Perm.cons x (sort-perm xs))
