-- ===== src/Tests/Buffers.antt =====
-- A buffer pool of two buffers of four bytes.
use sftp_go.Base.{◌≡◌, arith, refl, none, some, List, [], ◌∷◌}
use sftp_go.Pool.{Buffer, BufPool, new_buf_pool, take_fitting, make_buffer, get, put}
use sftp_go.Pool.Got.{Usable, get-Usable}
use sftp_go.Pool.Sharing.{
  Use, gets, puts, take_held, use_pool, use_all, opening, IsSound, use_all-opening-IsSound,
}

abbrev traffic : List Use
traffic = gets ∷ gets ∷ puts 1 ∷ gets ∷ gets ∷ puts 0 ∷ []

use_all-opening-IsSound_example : IsSound (use_all traffic (opening 2 4))
use_all-opening-IsSound_example = use_all-opening-IsSound traffic 2 4

-- The third call reuses the first buffer, the fourth makes a new one.
reused_buffer :
    (use_all traffic (opening 2 4)).held
    ≡ record { storage = 0; capacity = 4; len = 4 }
      ∷ record { storage = 1; capacity = 4; len = 4 }
      ∷ []
unfolding use_all use_pool take_held put get take_fitting make_buffer new_buf_pool
reused_buffer = refl

get_panics : get (new_buf_pool 2 0) ≡ none
unfolding get new_buf_pool
get_panics = refl

get-Usable_example :
    (b : Buffer) × (q : BufPool) × (get (new_buf_pool 2 4) ≡ some (b, q)) × Usable 4 b
unfolding new_buf_pool
get-Usable_example = get-Usable (new_buf_pool 2 4) (omega arith)
