-- ===== src/Pool.antt =====
-- pool.go, `bufPool`: byte slices to be reused. A buffer is its storage, named by a number, its
-- capacity and its length; `made` counts the buffers made, so that a new one has a new name. The
-- channel is a queue of at most `depth` buffers, and each call is one step. A `blen` that is not
-- positive is 0: `Get` panics on it. `blen * 2` is taken to fit an int.
pub mod Got
pub mod Sharing
use sftp_go.Base.{
  ℕ, zero, suc, ◌*◌, Bool, ◌||◌, Option, none, some, List, [], ◌∷◌, ◌++◌, length, ltb, ◌==◌,
  if◌then◌else◌,
}

pub record Buffer : Type 0 where
  pub storage : ℕ
  pub capacity : ℕ
  pub len : ℕ

pub record BufPool : Type 0 where
  pub queue : List Buffer
  pub depth : ℕ
  pub blen : ℕ
  pub made : ℕ

unfoldable pub new_buf_pool : ℕ → ℕ → BufPool
new_buf_pool depth buf_len = record { queue = []; depth = depth; blen = buf_len; made = 0 }

-- The loop of `Get`: buffers of too small a capacity are received and thrown away.
unfoldable pub take_fitting : ℕ → List Buffer → Option Buffer × List Buffer
take_fitting blen [] = (none, [])
take_fitting blen (b ∷ bs) =
    let rest = take_fitting blen bs in if ltb b.capacity blen then rest else (some b, bs)

-- `make([]byte, p.blen)`.
unfoldable pub make_buffer : BufPool → Buffer
make_buffer p = record { storage = p.made; capacity = p.blen; len = p.blen }

-- `Get`; `none` is its panic.
unfoldable pub get : BufPool → Option (Buffer × BufPool)
get p =
    if p.blen == 0
    then none
    else let (found, q) = take_fitting p.blen p.queue in
      elim found [
        | none ↦ some (make_buffer p, record p { queue = q; made = suc p.made })
        | some b ↦ some (record b { len = p.blen }, record p { queue = q })
      ]

-- `Put` on a pool that is not nil; the send is tried and given up when the channel is full.
unfoldable pub put : Buffer → BufPool → BufPool
put b p =
    if ltb b.capacity p.blen || ltb (p.blen * 2) b.capacity
    then p
    else if ltb (length p.queue) p.depth
    then record p { queue = p.queue ++ b ∷ [] }
    else p

-- `Put`, whose receiver may be nil.
abbrev pub put_maybe : Buffer → Option BufPool → Option BufPool
put_maybe b none = none
put_maybe b (some p) = some (put b p)
