-- ===== src/Client/Writes/Store.antt =====
-- A file as bytes, and what a write at an offset makes of it; a hole is filled with zeros.
use sftp_go.Base.{
  take_then, take-length, ℕ, zero, suc, ◌+◌, ◌-◌, ◌≡◌, refl, ap, ◌∙◌, sym, arith, ◌++◌, append-nil,
  append_assoc, length, length-append, length-take, take-append, drop-append, drop-drop, take, drop,
  replicate,
}
use sftp_go.Wire.{Bytes}

-- The file up to an offset.
unfoldable pub padded : ℕ → Bytes → Bytes
padded off file = take off file ++ replicate (off - length file) 0

unfoldable pub store : ℕ → Bytes → Bytes → Bytes
unfolding padded
store off d file = padded off file ++ (d ++ drop (off + length d) file)

length-replicate : (n : ℕ) → length (replicate {A = ℕ} n 0) ≡ n
length-replicate zero = refl
length-replicate (suc n) = omega (arith, length-replicate n)

length-padded : (off : ℕ) (file : Bytes) → length (padded off file) ≡ off
unfolding padded
length-padded off file = omega (
  arith,
  length-append (take off file) (replicate (off - length file) 0),
  length-take off file,
  length-replicate (off - length file),
)

padded-append : (n : ℕ) (xs ys : Bytes) → length xs ≡ n → padded n (xs ++ ys) ≡ xs
unfolding padded
padded-append n xs ys e =
    ap (λ k. take n (xs ++ ys) ++ replicate k 0) none_missing
    ∙ append-nil (take n (xs ++ ys))
    ∙ ap (λ k. take k (xs ++ ys)) (sym e)
    ∙ take-append xs ys
  where
    none_missing : n - length (xs ++ ys) ≡ 0
    none_missing = omega (arith, length-append xs ys)

drop-behind :
    (n m k : ℕ) (xs ys : Bytes) → length xs ≡ n → n + m ≡ k → drop k (xs ++ ys) ≡ drop m ys
drop-behind n m k xs ys e e' =
    sym (drop-drop n m k (xs ++ ys) e')
    ∙ ap (λ i. drop m (drop i (xs ++ ys))) (sym e)
    ∙ ap (drop m) (drop-append xs ys)

-- Two writes, the second behind the first, are one.
pub store-store :
    (off next : ℕ) (d1 d2 file : Bytes)
    → off + length d1 ≡ next
    → store next d2 (store off d1 file) ≡ store off (d1 ++ d2) file
unfolding store
store-store off next d1 d2 file e =
    let p : Bytes = padded off file in
    let rest : Bytes = drop (off + length d1) file in
    let m : ℕ = length d2 in
    ap (λ g. padded next g ++ (d2 ++ drop (next + m) g)) (sym (append_assoc p d1 rest))
    ∙ ap (◌++ (d2 ++ drop (next + m) ((p ++ d1) ++ rest)))
        (padded-append next (p ++ d1) rest ends_at)
    ∙ ap (λ r. (p ++ d1) ++ (d2 ++ r))
        (drop-behind next m (next + m) (p ++ d1) rest ends_at refl
          ∙ drop-drop (off + length d1) m (off + length (d1 ++ d2)) file
              (omega (arith, length-append d1 d2)))
    ∙ append_assoc p d1 _
    ∙ ap (p ++◌) (sym (append_assoc d1 d2 _))
  where
    ends_at : length (padded off file ++ d1) ≡ next
    ends_at = omega (arith, length-append (padded off file) d1, length-padded off file, e)

-- Behind the first bytes, whatever is written next at their end is as if it was written with them.
abbrev pub Continues : ℕ → Bytes → Bytes → Bytes → Type 0
Continues off first before now =
    (d : Bytes) → store (off + length first) d now ≡ store off (first ++ d) before

pub take-drop-piece :
    (n m : ℕ) (b : Bytes) → take n b ++ take m (drop n b) ≡ take (n + length (take m (drop n b))) b
take-drop-piece n m b =
    ap (take n b ++◌) (sym (take-length m (drop n b)))
    ∙ take_then n (length (take m (drop n b))) _ b refl

pub plus_zero : (n : ℕ) → n + 0 ≡ n
plus_zero n = omega arith
