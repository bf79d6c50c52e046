-- ===== src/Paths/Safety.antt =====
-- A cleaned path is absolute and has no element that leads out of it.
use sftp_go.Base.{
  ◌≡◌, ◌≢◌, refl, ap, sym, ◌∙◌, arith, true, false, List, [], ◌∷◌, ◌++◌, append_assoc, append-nil,
  ◌==◌, if◌then◌else◌, same_bytes_iff, All, Bool-cases, inl, inr,
}
use sftp_go.Wire.{Bytes}
use sftp_go.Paths.{
  slash, dot, dot_dot, is_empty, is_abs, onto_first, split, join_slash, back, push, resolve, render,
  clean, join_path, clean_path_with_base,
}
use mathlib.Core.List.{reverse, reverse-cons, reverse-reverse}

abbrev pub NoSlash : Bytes → Type 0
NoSlash [] = Unit {0}
NoSlash (c ∷ cs) = (c ≢ slash) × NoSlash cs

-- An element that names an entry of the directory before it.
abbrev pub Proper : Bytes → Type 0
Proper w = NoSlash w × (w ≢ []) × (w ≢ dot) × (w ≢ dot_dot)

split-NoSlash : (p : Bytes) → All NoSlash (split p)
unfolding split
split-NoSlash [] = (tt, tt)
split-NoSlash (c ∷ cs) = onto (split cs) (split-NoSlash cs)
  where
    onto :
        (ws : List Bytes)
        → All NoSlash ws
        → All NoSlash (if c == slash then [] ∷ ws else onto_first c ws)
    onto [] h = ground arith
    onto (w ∷ ws) h = ground arith

back-Proper : (ws : List Bytes) → All Proper ws → All Proper (back true ws)
unfolding back
back-Proper [] h = tt
back-Proper (w ∷ ws) h = ground (arith, same_bytes_iff w dot_dot, h.0)

push-Proper :
    (acc : List Bytes) (w : Bytes) → NoSlash w → All Proper acc → All Proper (push true acc w)
unfolding push is_empty
push-Proper acc [] n h = h
push-Proper acc (c ∷ cs) n h =
    ground (arith, same_bytes_iff (c ∷ cs) dot, same_bytes_iff (c ∷ cs) dot_dot, back-Proper acc h)

resolve-Proper :
    (ws acc : List Bytes) → All NoSlash ws → All Proper acc → All Proper (resolve true acc ws)
unfolding resolve
resolve-Proper [] acc n h = h
resolve-Proper (w ∷ ws) acc n h = resolve-Proper ws (push true acc w) n.1 (push-Proper acc w n.0 h)

-- The same for relative paths, where only the slashes matter.
abbrev Plain : Bytes → Type 0
Plain w = NoSlash w × (w ≢ [])

push-Plain :
    (acc : List Bytes) (w : Bytes) → NoSlash w → All Plain acc → All Plain (push false acc w)
unfolding push is_empty back
push-Plain acc [] n h = h
push-Plain [] (c ∷ cs) n h = ground arith
push-Plain (v ∷ vs) (c ∷ cs) n h = ground arith

resolve-Plain :
    (ws acc : List Bytes) → All NoSlash ws → All Plain acc → All Plain (resolve false acc ws)
unfolding resolve
resolve-Plain [] acc n h = h
resolve-Plain (w ∷ ws) acc n h = resolve-Plain ws (push false acc w) n.1 (push-Plain acc w n.0 h)

module _ {κ} (P : Bytes → Type κ) where
  All-append : (xs ys : List Bytes) → All P xs → All P ys → All P (xs ++ ys)
  All-append [] ys h k = k
  All-append (x ∷ xs) ys h k = (h.0, All-append xs ys h.1 k)

  All-reverse : (xs : List Bytes) → All P xs → All P (reverse xs)
  All-reverse [] h = tt
  All-reverse (x ∷ xs) h =
      rw (reverse-cons x xs) (All-append (reverse xs) (x ∷ []) (All-reverse xs h.1) (h.0, tt))

-- An absolute path that names what it names by plain elements alone.
abbrev pub Clean : Bytes → Type 0
Clean r = (ws : List Bytes) × (r ≡ slash ∷ join_slash ws) × All Proper ws

clean-Clean : (p : Bytes) → is_abs p ≡ true → Clean (clean p)
unfolding clean render
clean-Clean p h = rw h (reverse found, refl, proper)
  where
    found : List Bytes
    found = resolve true [] (split p)

    proper : All Proper (reverse found)
    proper = All-reverse Proper found (resolve-Proper (split p) [] (split-NoSlash p) tt)

is_abs-render : (ws : List Bytes) → All Plain ws → is_abs (render false ws) ≡ false
unfolding is_abs render join_slash
is_abs-render [] h = refl
is_abs-render ([] ∷ ws) h = absurd (h.0.1 refl)
is_abs-render ((c ∷ cs) ∷ []) h = ground arith
is_abs-render ((c ∷ cs) ∷ v ∷ vs) h = ground arith

is_abs-clean : (p : Bytes) → is_abs p ≡ false → is_abs (clean p) ≡ false
unfolding clean
is_abs-clean p h =
    rw h (is_abs-render _ (All-reverse Plain _ (resolve-Plain (split p) [] (split-NoSlash p) tt)))

is_abs-clean_abs : (p : Bytes) → is_abs p ≡ true → is_abs (clean p) ≡ true
unfolding clean render
is_abs-clean_abs p h = rw h (unfold is_abs in refl)

is_abs-append : (a b : Bytes) → is_abs a ≡ true → is_abs (a ++ b) ≡ true
unfolding is_abs
is_abs-append [] b h = cc
is_abs-append (c ∷ cs) b h = h

join_path-Clean : (base q : Bytes) → is_abs base ≡ true → Clean (join_path base q)
unfolding join_path is_empty
join_path-Clean [] q h = absurd (unfold is_abs in cc)
join_path-Clean (c ∷ cs) [] h = clean-Clean (c ∷ cs) h
join_path-Clean (c ∷ cs) (d ∷ ds) h =
    clean-Clean ((c ∷ cs) ++ slash ∷ d ∷ ds) (is_abs-append (c ∷ cs) (slash ∷ d ∷ ds) h)

-- Whatever path a client sends, `cleanPathWithBase` under an absolute base makes it an absolute path
-- in which no element is empty, `.` or `..` or has a slash in it, so it cannot leave the root.
pub clean_path_with_base-Clean :
    (base p : Bytes) → is_abs base ≡ true → Clean (clean_path_with_base base p)
unfolding clean_path_with_base
clean_path_with_base-Clean base p h = elim (Bool-cases (is_abs p)) [
  | inl abs ↦ rw (is_abs-clean_abs p abs) (clean-Clean p abs)
  | inr rel ↦ rw (is_abs-clean p rel) (join_path-Clean base (clean p) h)
]

-- Cleaning what is clean.
split_word : (w rest : Bytes) → NoSlash w → split (w ++ slash ∷ rest) ≡ w ∷ split rest
unfolding split
split_word [] rest h = refl
split_word (c ∷ cs) rest h = rw (split_word cs rest h.1) (ground arith)

split_last : (w : Bytes) → NoSlash w → split w ≡ w ∷ []
unfolding split
split_last [] h = refl
split_last (c ∷ cs) h = rw (split_last cs h.1) (ground arith)

split-join_slash :
    (w : Bytes) (ws : List Bytes) → All NoSlash (w ∷ ws) → split (join_slash (w ∷ ws)) ≡ w ∷ ws
unfolding join_slash
split-join_slash w [] h = split_last w h.0
split-join_slash w (v ∷ vs) h =
    split_word w (join_slash (v ∷ vs)) h.0 ∙ ap (◌∷◌ w) (split-join_slash v vs h.1)

push-cons : (acc : List Bytes) (w : Bytes) → Proper w → push true acc w ≡ w ∷ acc
unfolding push is_empty
push-cons acc [] h = absurd (h.1 refl)
push-cons acc (c ∷ cs) h =
    ground (arith, same_bytes_iff (c ∷ cs) dot, same_bytes_iff (c ∷ cs) dot_dot)

resolve-reverse : (ws acc : List Bytes) → All Proper ws → resolve true acc ws ≡ reverse ws ++ acc
unfolding resolve
resolve-reverse [] acc h = refl
resolve-reverse (w ∷ ws) acc h = rw (push-cons acc w h.0) (
    resolve-reverse ws (w ∷ acc) h.1
    ∙ sym (rw (reverse-cons w ws) (append_assoc (reverse ws) (w ∷ []) acc)))

All-NoSlash : (ws : List Bytes) → All Proper ws → All NoSlash ws
All-NoSlash [] h = tt
All-NoSlash (w ∷ ws) h = (h.0.0, All-NoSlash ws h.1)

clean_self :
    (ws : List Bytes) → All Proper ws → clean (slash ∷ join_slash ws) ≡ slash ∷ join_slash ws
unfolding clean is_abs split render resolve
clean_self [] h = unfold join_slash push is_empty in refl
clean_self (w ∷ ws) h =
    let cut = split-join_slash w ws (All-NoSlash (w ∷ ws) h) in
    rw (cut, skip) (rw (resolve-reverse (w ∷ ws) [] h) (rw (append-nil, reverse-reverse)))
  where
    skip : push true [] [] ≡ []
    skip = unfold push is_empty in refl

-- Cleaning a path twice, as the handlers of FSTAT and FSETSTAT do, changes nothing more; for an
-- absolute base.
pub clean_path_with_base_idem :
    (base p : Bytes)
    → is_abs base ≡ true
    → clean_path_with_base base (clean_path_with_base base p) ≡ clean_path_with_base base p
clean_path_with_base_idem base p h =
    let (ws, e, proper) = clean_path_with_base-Clean base p h in rw e (again ws proper)
  where
    again :
        (ws : List Bytes)
        → All Proper ws
        → clean_path_with_base base (slash ∷ join_slash ws) ≡ slash ∷ join_slash ws
    again ws proper =
        unfold clean_path_with_base in rw (clean_self ws proper) (unfold is_abs in refl)
