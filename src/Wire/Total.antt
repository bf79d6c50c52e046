-- ===== src/Wire/Total.antt =====
-- The checked decoders never run out of their slice.
use sftp_go.Base.{ℕ, ◌+◌, ◌≤◌, ◌≢◌, length-drop, arith, [], ◌∷◌, length, ltb, if◌then◌else◌}
use sftp_go.Wire.{
  Bytes, Read, ok, fail, panic, and_then, short_packet, unmarshal_uint32, unmarshal_uint32_safe,
  unmarshal_uint64, unmarshal_uint64_safe, split_at, unmarshal_string_safe,
}

pub and_then-ne-panic {ℓ κ} :
    {A : Type ℓ} {B : Type κ} (r : Read A) (k : A → Bytes → Read B)
    → r ≢ panic
    → ((a : A) (rest : Bytes) → k a rest ≢ panic)
    → and_then r k ≢ panic
and_then-ne-panic (ok a rest) k h d = d a rest
and_then-ne-panic (fail e) k h d = λ x. cc
and_then-ne-panic panic k h d = λ x. h cc

-- A read that took at least `n` bytes of `b`, or failed; it did not panic.
abbrev pub Takes {ℓ} : {A : Type ℓ} → ℕ → Bytes → Read A → Type 0
Takes n b (ok a rest) = length rest + n ≤ length b
Takes n b (fail e) = Unit {0}
Takes n b panic = ⊥

unmarshal_uint32-Takes : (b : Bytes) → 4 ≤ length b → Takes 4 b (unmarshal_uint32 b)
unfolding unmarshal_uint32
unmarshal_uint32-Takes [] h = omega arith
unmarshal_uint32-Takes (b0 ∷ []) h = omega arith
unmarshal_uint32-Takes (b0 ∷ b1 ∷ []) h = omega arith
unmarshal_uint32-Takes (b0 ∷ b1 ∷ b2 ∷ []) h = omega arith
unmarshal_uint32-Takes (b0 ∷ b1 ∷ b2 ∷ b3 ∷ rest) h = omega arith

pub unmarshal_uint32_safe-Takes : (b : Bytes) → Takes 4 b (unmarshal_uint32_safe b)
unfolding unmarshal_uint32_safe
unmarshal_uint32_safe-Takes b = ground (arith, unmarshal_uint32-Takes b)

unmarshal_uint64-Takes : (b : Bytes) → 8 ≤ length b → Takes 8 b (unmarshal_uint64 b)
unfolding unmarshal_uint64 unmarshal_uint32
unmarshal_uint64-Takes [] h = omega arith
unmarshal_uint64-Takes (b0 ∷ []) h = omega arith
unmarshal_uint64-Takes (b0 ∷ b1 ∷ []) h = omega arith
unmarshal_uint64-Takes (b0 ∷ b1 ∷ b2 ∷ []) h = omega arith
unmarshal_uint64-Takes (b0 ∷ b1 ∷ b2 ∷ b3 ∷ []) h = omega arith
unmarshal_uint64-Takes (b0 ∷ b1 ∷ b2 ∷ b3 ∷ b4 ∷ []) h = omega arith
unmarshal_uint64-Takes (b0 ∷ b1 ∷ b2 ∷ b3 ∷ b4 ∷ b5 ∷ []) h = omega arith
unmarshal_uint64-Takes (b0 ∷ b1 ∷ b2 ∷ b3 ∷ b4 ∷ b5 ∷ b6 ∷ []) h = omega arith
unmarshal_uint64-Takes (b0 ∷ b1 ∷ b2 ∷ b3 ∷ b4 ∷ b5 ∷ b6 ∷ b7 ∷ rest) h = omega arith

pub unmarshal_uint64_safe-Takes : (b : Bytes) → Takes 8 b (unmarshal_uint64_safe b)
unfolding unmarshal_uint64_safe
unmarshal_uint64_safe-Takes b = ground (arith, unmarshal_uint64-Takes b)

pub split_at-Takes : (n : ℕ) (b : Bytes) → n ≤ length b → Takes n b (split_at n b)
unfolding split_at
split_at-Takes n b h = ground (arith, length-drop n b)

string_body :
    (n : ℕ) (b b1 : Bytes)
    → length b1 + 4 ≤ length b
    → Takes 4 b (if ltb (length b1) n then fail short_packet else split_at n b1)
string_body n b b1 h = ground (arith, split_at-Takes n b1)

and_then-Takes {ℓ κ} :
    {A : Type ℓ} {B : Type κ} (n : ℕ) (b : Bytes) (r : Read A) (k : A → Bytes → Read B)
    → Takes n b r
    → ((a : A) (rest : Bytes) → length rest + n ≤ length b → Takes n b (k a rest))
    → Takes n b (and_then r k)
and_then-Takes n b (ok a rest) k t h = h a rest t
and_then-Takes n b (fail e) k t h = tt
and_then-Takes n b panic k t h = elim t [ ]

pub unmarshal_string_safe-Takes : (b : Bytes) → Takes 4 b (unmarshal_string_safe b)
unfolding unmarshal_string_safe
unmarshal_string_safe-Takes b =
    and_then-Takes 4 b (unmarshal_uint32_safe b) _ (unmarshal_uint32_safe-Takes b)
      (λ n rest h. string_body n b rest h)

Takes-ne-panic {ℓ} : {A : Type ℓ} (n : ℕ) (b : Bytes) (r : Read A) → Takes n b r → r ≢ panic
Takes-ne-panic n b (ok a rest) t = λ e. cc
Takes-ne-panic n b (fail e) t = λ e. cc
Takes-ne-panic n b panic t = λ e. t

pub unmarshal_uint32_safe-ne-panic : (b : Bytes) → unmarshal_uint32_safe b ≢ panic
unmarshal_uint32_safe-ne-panic b = Takes-ne-panic 4 b _ (unmarshal_uint32_safe-Takes b)

pub unmarshal_uint64_safe-ne-panic : (b : Bytes) → unmarshal_uint64_safe b ≢ panic
unmarshal_uint64_safe-ne-panic b = Takes-ne-panic 8 b _ (unmarshal_uint64_safe-Takes b)

pub unmarshal_string_safe-ne-panic : (b : Bytes) → unmarshal_string_safe b ≢ panic
unmarshal_string_safe-ne-panic b = Takes-ne-panic 4 b _ (unmarshal_string_safe-Takes b)
