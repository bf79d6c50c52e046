-- ===== src/Pool/Sharing.antt =====
-- Clients that share a buffer pool: each gets buffers, and puts back one that it holds.
use sftp_go.Base.{
  ℕ, zero, suc, ◌+◌, ◌*◌, ◌≤◌, ◌≡◌, refl, arith, Option, none, some, ◌⊎◌, inl, inr, Bool, ◌||◌,
  true, false, List, [], ◌∷◌, ◌++◌, length, length-append, All, ltb, ◌==◌, if◌then◌else◌,
}
use sftp_go.Pool.{Buffer, BufPool, new_buf_pool, make_buffer, get, put}
use sftp_go.Pool.Got.{Fitting, Usable, get-cases}

-- The pool, and the buffers that clients hold.
pub record Sharing : Type 0 where
  pub pool : BufPool
  pub held : List Buffer

pub data Use : Type 0 where
  gets : Use
  -- Puts back the held buffer at a position.
  puts : ℕ → Use

-- The buffer at a position, and the others.
unfoldable pub take_held : ℕ → List Buffer → Option (Buffer × List Buffer)
take_held i [] = none
take_held zero (b ∷ bs) = some (b, bs)
take_held (suc i) (b ∷ bs) = elim (take_held i bs) [
  | none ↦ none
  | some (x, rest) ↦ some (x, b ∷ rest)
]

unfoldable pub use_pool : Use → Sharing → Sharing
use_pool gets s = elim (get s.pool) [
  | none ↦ s
  | some (b, p) ↦ record { pool = p; held = b ∷ s.held }
]
use_pool (puts i) s = elim (take_held i s.held) [
  | none ↦ s
  | some (b, rest) ↦ record { pool = put b s.pool; held = rest }
]

unfoldable pub use_all : List Use → Sharing → Sharing
use_all [] s = s
use_all (u ∷ us) s = use_all us (use_pool u s)

abbrev pub opening : ℕ → ℕ → Sharing
opening depth blen = record { pool = new_buf_pool depth blen; held = [] }

-- How often a storage occurs among buffers.
abbrev pub among : ℕ → List Buffer → ℕ
among p [] = 0
among p (b ∷ bs) = (if b.storage == p then 1 else 0) + among p bs

among-append : (p : ℕ) (xs ys : List Buffer) → among p (xs ++ ys) ≡ among p xs + among p ys
among-append p [] ys = omega arith
among-append p (x ∷ xs) ys = omega (arith, among-append p xs ys)

-- What holds between any two calls.
pub record IsSound (s : Sharing) : Type 0 where
  pub once : (p : ℕ) → among p s.pool.queue + among p s.held ≤ 1
  pub fresh : (p : ℕ) → s.pool.made ≤ p → among p s.pool.queue + among p s.held ≡ 0
  pub kept : length s.pool.queue ≤ s.pool.depth
  pub fitting : All (Fitting s.pool.blen) s.pool.queue
  pub usable : All (Usable s.pool.blen) s.held

opening-IsSound : (depth blen : ℕ) → IsSound (opening depth blen)
unfolding new_buf_pool
opening-IsSound depth blen = record {
  once = λ p. omega arith;
  fresh = λ p h. refl;
  kept = omega arith;
  fitting = tt;
  usable = tt;
}

if-cases :
    (c d e : Bool) (x y : BufPool)
    → ((if c || d then x else if e then y else x) ≡ x)
      ⊎ ((c ≡ false) × (d ≡ false) × (e ≡ true) × ((if c || d then x else if e then y else x) ≡ y))
if-cases true d e x y = inl refl
if-cases false true e x y = inl refl
if-cases false false false x y = inl refl
if-cases false false true x y = inr (refl, refl, refl, refl)

All-snoc :
    (P : Buffer → Type 0) (bs : List Buffer) (b : Buffer) → All P bs → P b → All P (bs ++ b ∷ [])
All-snoc P [] b h hb = (hb, tt)
All-snoc P (x ∷ bs) b h hb = (h.0, All-snoc P bs b h.1 hb)

put-IsSound :
    (b : Buffer) (p : BufPool) (rest : List Buffer)
    → IsSound (record { pool = p; held = b ∷ rest })
    → IsSound (record { pool = put b p; held = rest })
unfolding put
put-IsSound b p rest v =
    elim (if-cases (ltb b.capacity p.blen) (ltb (p.blen * 2) b.capacity)
      (ltb (length p.queue) p.depth) p (record p { queue = p.queue ++ b ∷ [] })) [
        | inl e ↦
            rw (e, put)
              (record {
                once = λ i. omega (arith, v.once i);
                fresh = λ i h. omega (arith, v.fresh i h);
                kept = v.kept;
                fitting = v.fitting;
                usable = v.usable.1;
              })
        | inr (low, high, free, e) ↦
            rw (e, put)
              (record {
                once = λ i. omega (arith, v.once i, among-append i p.queue (b ∷ []));
                fresh = λ i h. omega (arith, v.fresh i h, among-append i p.queue (b ∷ []));
                kept = ground (arith, free, length-append p.queue (b ∷ []));
                fitting = All-snoc (Fitting p.blen) p.queue b v.fitting (ground (arith, low, high));
                usable = v.usable.1;
              })
      ]

-- The others lose one buffer.
take_held-among :
    (i : ℕ) (bs : List Buffer) (blen : ℕ)
    → (take_held i bs ≡ none)
      ⊎ ((b : Buffer) × (rest : List Buffer) × (take_held i bs ≡ some (b, rest))
          × ((p : ℕ) → among p bs ≡ among p (b ∷ rest))
          × (All (Usable blen) bs → All (Usable blen) (b ∷ rest)))
unfolding take_held
take_held-among i [] blen = inl refl
take_held-among zero (b ∷ bs) blen = inr (b, bs, refl, (λ p. refl), λ h. h)
take_held-among (suc i) (b ∷ bs) blen = elim (take_held-among i bs blen) [
  | inl e ↦ inl (rw e refl)
  | inr (x, rest, e, same, uses) ↦ inr (
    x,
    b ∷ rest,
    rw e refl,
    (λ p. omega (arith, same p)),
    λ h. ((uses h.1).0, (h.0, (uses h.1).1)),
  )
]

use_pool-IsSound : (u : Use) (s : Sharing) → IsSound s → IsSound (use_pool u s)
unfolding use_pool make_buffer
use_pool-IsSound gets s v = elim (get-cases s.pool v.fitting) [
  | inl e ↦ rw (e, use_pool) v
  | inr (inl (q, e)) ↦
      rw (e, use_pool)
        (record {
          once = λ p. ground (arith, v.once p, v.fresh p, q);
          fresh = λ p h. ground (arith, v.fresh p, q);
          kept = omega arith;
          fitting = tt;
          usable = ((refl, omega arith), v.usable);
        })
  | inr (inr (b, bs, q, e)) ↦
      let fits : All (Fitting s.pool.blen) (b ∷ bs) = rw q at v.fitting in
      rw (e, use_pool)
        (record {
          once = λ p. ground (arith, v.once p, q);
          fresh = λ p h. ground (arith, v.fresh p, q);
          kept = ground (arith, v.kept, q);
          fitting = fits.1;
          usable = ((refl, fits.0.0), v.usable);
        })
]
use_pool-IsSound (puts i) s v = elim (take_held-among i s.held s.pool.blen) [
  | inl e ↦ rw (e, use_pool) v
  | inr (b, rest, e, same, uses) ↦
      rw (e, use_pool)
        (put-IsSound b s.pool rest (record {
          once = λ p. omega (arith, v.once p, same p);
          fresh = λ p h. omega (arith, v.fresh p h, same p);
          kept = v.kept;
          fitting = v.fitting;
          usable = uses v.usable;
        }))
]

use_all-IsSound : (us : List Use) (s : Sharing) → IsSound s → IsSound (use_all us s)
unfolding use_all
use_all-IsSound [] s v = v
use_all-IsSound (u ∷ us) s v = use_all-IsSound us (use_pool u s) (use_pool-IsSound u s v)

-- Whatever clients get from a new pool and put back of what they hold: no storage is held twice, or
-- held and in the pool; no storage that was not made yet is anywhere; the pool keeps at most
-- `depth` buffers, of a capacity from `blen` to twice that; and each held buffer has the length
-- `blen`, within its capacity.
pub use_all-opening-IsSound :
    (us : List Use) (depth blen : ℕ) → IsSound (use_all us (opening depth blen))
use_all-opening-IsSound us depth blen =
    use_all-IsSound us (opening depth blen) (opening-IsSound depth blen)
