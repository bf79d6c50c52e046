-- ===== src/Attrs/Total.antt =====
-- The decoder of attribute blocks is total: it never runs out of its slice.
use sftp_go.Base.{ℕ, arith, zero, suc, ◌≢◌}
use sftp_go.Wire.{Bytes, ok, panic, unmarshal_uint32_safe}
use sftp_go.Wire.Total.{
  unmarshal_uint32_safe-ne-panic, unmarshal_uint64_safe-ne-panic, unmarshal_string_safe-ne-panic,
  and_then-ne-panic,
}
use sftp_go.Attrs.{
  unmarshal_size, unmarshal_pair, unmarshal_uidgid, unmarshal_permissions, unmarshal_acmodtime,
  unmarshal_entries, unmarshal_extended, unmarshal_file_stat,
}

ok-ne-panic : {A : Type 0} (a : A) (b : Bytes) → ok a b ≢ panic
ok-ne-panic a b e = cc

pair : (b : Bytes) → unmarshal_pair b ≢ panic
unfolding unmarshal_pair
pair b =
    and_then-ne-panic _ _ (unmarshal_uint32_safe-ne-panic b)
      (λ x c. and_then-ne-panic _ _ (unmarshal_uint32_safe-ne-panic c) (λ y d e. cc))

entries : (count : ℕ) (b : Bytes) → unmarshal_entries count b ≢ panic
unfolding unmarshal_entries
entries zero b = λ e. cc
entries (suc count) b = and_then-ne-panic _ _ (unmarshal_string_safe-ne-panic b) (λ typ b1.
    and_then-ne-panic _ _ (unmarshal_string_safe-ne-panic b1)
      (λ value b2. and_then-ne-panic _ _ (entries count b2) (λ ext b3 e. cc)))

-- `unmarshalFileStat` returns a FileStat or an error on every input.
pub unmarshal_file_stat-ne-panic : (flags : ℕ) (b : Bytes) → unmarshal_file_stat flags b ≢ panic
unfolding unmarshal_file_stat unmarshal_size unmarshal_uidgid unmarshal_permissions
    unmarshal_acmodtime unmarshal_extended
unmarshal_file_stat-ne-panic flags b =
    and_then-ne-panic (unmarshal_size flags b) _ (ground (arith, unmarshal_uint64_safe-ne-panic b))
      (λ size b1.
        and_then-ne-panic (unmarshal_uidgid flags b1) _ (ground (arith, pair b1)) (λ ids b2.
          and_then-ne-panic (unmarshal_permissions flags b2) _
            (ground (arith, unmarshal_uint32_safe-ne-panic b2))
            (λ mode b3.
              and_then-ne-panic (unmarshal_acmodtime flags b3) _ (ground (arith, pair b3))
                (λ times b4.
                  and_then-ne-panic (unmarshal_extended flags b4) _ (extension b4)
                    (λ ext b5. ok-ne-panic _ _)))))
  where
    extension : (c : Bytes) → unmarshal_extended flags c ≢ panic
    extension c = ground (
      arith,
      and_then-ne-panic (unmarshal_uint32_safe c) unmarshal_entries
          (unmarshal_uint32_safe-ne-panic c) entries,
    )
