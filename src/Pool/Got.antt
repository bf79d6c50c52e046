-- ===== src/Pool/Got.antt =====
-- What `Get` of `bufPool` (pool.go) gives.
use sftp_go.Base.{
  ℕ, suc, ◌*◌, ◌≤◌, ◌<◌, ◌≡◌, refl, arith, none, some, ◌⊎◌, inl, inr, ap, ◌∙◌, false, Bool-cases,
  List, [], ◌∷◌, All, ltb, ◌==◌,
}
use sftp_go.Pool.{Buffer, BufPool, take_fitting, make_buffer, get}

abbrev pub Fitting : ℕ → Buffer → Type 0
Fitting blen b = (blen ≤ b.capacity) × (b.capacity ≤ blen * 2)

abbrev pub Usable : ℕ → Buffer → Type 0
Usable blen b = (b.len ≡ blen) × (blen ≤ b.capacity)

uncons : (bs : List Buffer) → (bs ≡ []) ⊎ ((b : Buffer) × (rest : List Buffer) × (bs ≡ b ∷ rest))
uncons [] = inl refl
uncons (b ∷ rest) = inr (b, rest, refl)

take_fitting-Fitting :
    (blen : ℕ) (b : Buffer) (bs : List Buffer)
    → All (Fitting blen) (b ∷ bs)
    → take_fitting blen (b ∷ bs) ≡ (some b, bs)
unfolding take_fitting
take_fitting-Fitting blen b bs h =
    let large : ltb b.capacity blen ≡ false = ground (arith, h.0.0) in rw large refl

-- A pool of fitting buffers gives its first, an empty one a new buffer.
pub get-cases :
    (p : BufPool)
    → All (Fitting p.blen) p.queue
    → (get p ≡ none)
      ⊎ ((p.queue ≡ [])
          × (get p ≡ some (make_buffer p, record p { queue = []; made = suc p.made })))
      ⊎ ((b : Buffer) × (bs : List Buffer) × (p.queue ≡ b ∷ bs)
          × (get p ≡ some (record b { len = p.blen }, record p { queue = bs })))
unfolding get take_fitting
get-cases p fits = elim (Bool-cases (p.blen == 0)) [
  | inl z ↦ inl (rw (z, get) refl)
  | inr z ↦ inr (elim (uncons p.queue) [
    | inl q ↦
        let empty : take_fitting p.blen p.queue ≡ (none, []) = ap (take_fitting p.blen) q in
        inl (q, simp (get, z, empty))
    | inr (b, bs, q) ↦
        let first : take_fitting p.blen p.queue ≡ (some b, bs) =
          ap (take_fitting p.blen) q ∙ take_fitting-Fitting p.blen b bs (rw q at fits) in
        inr (b, bs, q, simp (get, z, first))
  ])
]

take_fitting-Fits :
    (blen : ℕ) (q : List Buffer)
    → ((take_fitting blen q).0 ≡ none)
      ⊎ ((b : Buffer) × ((take_fitting blen q).0 ≡ some b) × (blen ≤ b.capacity))
unfolding take_fitting
take_fitting-Fits blen [] = inl refl
take_fitting-Fits blen (b ∷ q) = elim (Bool-cases (ltb b.capacity blen)) [
  | inl small ↦ rw small (take_fitting-Fits blen q)
  | inr large ↦ rw large (inr (b, refl, ground (arith, large)))
]

-- Whatever is in the channel, `Get` of a pool whose `blen` is not 0 does not panic: it gives a
-- buffer of length `blen`, within its capacity.
pub get-Usable :
    (p : BufPool)
    → 0 < p.blen
    → (b : Buffer) × (q : BufPool) × (get p ≡ some (b, q)) × Usable p.blen b
unfolding get make_buffer
get-Usable p positive =
    let some_blen : (p.blen == 0) ≡ false = ground arith in
    elim (take_fitting-Fits p.blen p.queue) [
      | inl e ↦ (
        make_buffer p,
        record p { queue = (take_fitting p.blen p.queue).1; made = suc p.made },
        simp (get, some_blen, e),
        (refl, omega arith),
      )
      | inr (b, e, large) ↦ (
        record b { len = p.blen },
        record p { queue = (take_fitting p.blen p.queue).1 },
        simp (get, some_blen, e),
        (refl, large),
      )
    ]
