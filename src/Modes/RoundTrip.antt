-- ===== src/Modes/RoundTrip.antt =====
-- `fromFileMode` after `toFileMode`.
use sftp_go.Base.{
  ℕ, zero, suc, ◌+◌, ◌/◌, ◌%◌, ◌<◌, ◌≡◌, refl, arith, Bool, true, ◌&&◌, ◌||◌, ◌==◌, ==_iff,
  if◌then◌else◌,
}
use sftp_go.Modes.{to_file_mode, from_file_mode, to_type, from_type}

-- The types of file that the protocol has a value for.
unfoldable pub known_type : ℕ → Bool
known_type mode =
    let t : ℕ = mode / 0x1000 in
    t == 1 || t == 2 || t == 4 || t == 6 || t == 8 || t == 0xa || t == 0xc

-- What the two conversions keep of a mode: all of it when its type is known, and without its type,
-- as a regular file, otherwise.
unfoldable pub kept : ℕ → ℕ
kept mode = if known_type mode then mode else 0x8000 + mode % 0x1000

below : ℕ → (ℕ → Bool) → Bool
below zero p = true
below (suc n) p = p n && below n p

table : below 0x10000 (λ m. from_file_mode (to_file_mode m) == kept m) ≡ true
unfolding below from_file_mode to_file_mode to_type from_type known_type kept
table = refl

below_sound : (n : ℕ) (p : ℕ → Bool) (x : ℕ) → x < n → below n p ≡ true → p x ≡ true
unfolding below
below_sound zero p x lt h = absurd (omega arith)
below_sound (suc n) p x lt h = ground (arith, below_sound n p x)

-- A mode of the protocol's sixteen bits comes back from Go's representation with its type,
-- permissions and flags; an unknown type becomes that of a regular file.
pub from_file_mode-to_file_mode :
    (mode : ℕ) → mode < 0x10000 → from_file_mode (to_file_mode mode) ≡ kept mode
from_file_mode-to_file_mode mode h =
    (==_iff _ (kept mode)).0
      (below_sound 0x10000 (λ m. from_file_mode (to_file_mode m) == kept m) mode h table)
