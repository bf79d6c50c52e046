-- ===== src/Server/Handles.antt =====
-- server.go and request-server.go: the table of open handles, with the counter that names them.
-- Each operation holds the lock for its whole body.
pub mod Decimal
pub mod Fresh
use sftp_go.Base.{
  ℕ, ◌+◌, ◌-◌, ◌%◌, ◌^◌, Option, none, some, List, [], ◌∷◌, ltb, same_bytes, if◌then◌else◌,
}
use sftp_go.Wire.{Bytes}
use Decimal.{itoa}

-- `handleCount` is a 64-bit `int`, in two's complement; the map is an association list.
pub record HandleTable (F : Type 0) : Type 0 where
  pub open_files : List (Bytes × F)
  pub handle_count : ℕ

module _ {F : Type 0} where
  unfoldable pub look_up : Bytes → List (Bytes × F) → Option F
  look_up handle [] = none
  look_up handle ((k, f) ∷ rest) = if same_bytes k handle then some f else look_up handle rest

  unfoldable pub delete : Bytes → List (Bytes × F) → List (Bytes × F)
  delete handle [] = []
  delete handle ((k, f) ∷ rest) =
      let others = delete handle rest in if same_bytes k handle then others else (k, f) ∷ others

  unfoldable pub no_handles : HandleTable F
  no_handles = record { open_files = []; handle_count = 0 }

  -- `nextHandle`: the handle, and the table with it.
  unfoldable pub next_handle : F → HandleTable F → Bytes × HandleTable F
  next_handle f t =
      let count : ℕ = (t.handle_count + 1) % 2 ^ 64 in
      let handle : Bytes = itoa count in
      (
        handle,
        record { open_files = (handle, f) ∷ delete handle t.open_files; handle_count = count },
      )

  -- `getHandle`.
  unfoldable pub get_handle : Bytes → HandleTable F → Option F
  get_handle handle t = look_up handle t.open_files

  -- The part of `closeHandle` that touches the table: the file to close, or none for `EBADF`.
  unfoldable pub close_handle : Bytes → HandleTable F → Option F × HandleTable F
  close_handle handle t = elim (look_up handle t.open_files) [
    | none ↦ (none, t)
    | some f ↦ (some f, record t { open_files = delete handle t.open_files })
  ]

-- A history of opened and closed handles.
pub data Use (F : Type 0) : Type 0 where
  opens : F → Use F
  closes : Bytes → Use F

unfoldable pub use_handle : {F : Type 0} → Use F → HandleTable F → HandleTable F
use_handle (opens f) t = (next_handle f t).1
use_handle (closes handle) t = (close_handle handle t).1

unfoldable pub use_handles : {F : Type 0} → List (Use F) → HandleTable F → HandleTable F
use_handles [] t = t
use_handles (u ∷ us) t = use_handles us (use_handle u t)
