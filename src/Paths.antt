-- ===== src/Paths.antt =====
-- Paths: `cleanPath` and `cleanPathWithBase` of request-server.go and `toLocalPath` of
-- server_unix.go, with what they use of the packages path and path/filepath on Unix (`Clean`,
-- `Join`, `IsAbs`; `ToSlash` is the identity there).
pub mod Safety
use sftp_go.Base.{
  ℕ, Bool, true, false, not, ◌&&◌, ◌||◌, List, [], ◌∷◌, ◌++◌, ◌==◌, if◌then◌else◌, same_bytes,
  codes,
}
use sftp_go.Wire.{Bytes}
use mathlib.Core.List.{reverse}

abbrev pub slash : ℕ
slash = b'/'

abbrev pub dot : Bytes
dot = codes "."

abbrev pub dot_dot : Bytes
dot_dot = codes ".."

unfoldable pub is_empty : Bytes → Bool
is_empty [] = true
is_empty (c ∷ cs) = false

-- `path.IsAbs`.
unfoldable pub is_abs : Bytes → Bool
is_abs [] = false
is_abs (c ∷ cs) = c == slash

-- The elements between slashes.
abbrev pub onto_first : ℕ → List Bytes → List Bytes
onto_first c [] = (c ∷ []) ∷ []
onto_first c (w ∷ ws) = (c ∷ w) ∷ ws

unfoldable pub split : Bytes → List Bytes
split [] = [] ∷ []
split (c ∷ cs) = let rest = split cs in if c == slash then [] ∷ rest else onto_first c rest

unfoldable pub join_slash : List Bytes → Bytes
join_slash [] = []
join_slash (w ∷ ws) = elim ws [ [] ↦ w | v ∷ vs ↦ w ++ slash ∷ join_slash ws ]

-- `..` takes the last element back; at the root it has no effect, and in front of a relative path
-- it stays.
unfoldable pub back : Bool → List Bytes → List Bytes
back rooted [] = if rooted then [] else dot_dot ∷ []
back rooted (w ∷ ws) = if same_bytes w dot_dot then dot_dot ∷ w ∷ ws else ws

unfoldable pub push : Bool → List Bytes → Bytes → List Bytes
push rooted acc w =
    if is_empty w || same_bytes w dot
    then acc
    else if same_bytes w dot_dot
    then back rooted acc
    else w ∷ acc

-- The elements that stay, last first.
unfoldable pub resolve : Bool → List Bytes → List Bytes → List Bytes
resolve rooted acc [] = acc
resolve rooted acc (w ∷ ws) = resolve rooted (push rooted acc w) ws

unfoldable pub render : Bool → List Bytes → Bytes
render true ws = slash ∷ join_slash ws
render false [] = dot
render false (w ∷ ws) = join_slash (w ∷ ws)

-- `path.Clean`.
unfoldable pub clean : Bytes → Bytes
clean p = render (is_abs p) (reverse (resolve (is_abs p) [] (split p)))

-- `path.Join` of two elements, of which the empty ones are dropped.
unfoldable pub join_path : Bytes → Bytes → Bytes
join_path a b =
    if is_empty a && is_empty b
    then []
    else if is_empty a
    then clean b
    else if is_empty b
    then clean a
    else clean (a ++ slash ∷ b)

unfoldable pub clean_path_with_base : Bytes → Bytes → Bytes
clean_path_with_base base p = let q = clean p in if not (is_abs q) then join_path base q else q

unfoldable pub clean_path : Bytes → Bytes
clean_path p = clean_path_with_base (slash ∷ []) p

unfoldable pub to_local_path : Bytes → Bytes → Bytes
to_local_path work_dir p =
    if not (is_empty work_dir) && not (is_abs p) then join_path work_dir p else p
