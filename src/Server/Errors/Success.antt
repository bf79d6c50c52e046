-- ===== src/Server/Errors/Success.antt =====
-- A failed call is not reported as a success.
use sftp_go.Base.{ℕ, ◌≡◌, ◌⊎◌, inl, inr, ap, arith, some, Option-cases}
use sftp_go.Wire.{Bytes}
use sftp_go.Server.Errors.{
  GoError, errno, path_error, translate_syscall_error, translate_errno, as_fx, status_code,
}
use sftp_go.Server.Errors.Codes

-- The errors that themselves say that all is well: `Errno(0)`, alone or in a path error, and an
-- `fxerr` of `SSH_FX_OK` at any depth.
abbrev pub SaysOk : GoError → Type 0
SaysOk e = (e ≡ errno 0) ⊎ ((p : Bytes) × (e ≡ path_error p (errno 0))) ⊎ (as_fx e ≡ some Codes.ok)

translate_errno-ok : (n : ℕ) → translate_errno n ≡ Codes.ok → n ≡ 0
unfolding translate_errno
translate_errno-ok n h = ground arith

some_injective : {a b : ℕ} → some a ≡ some b → a ≡ b
some_injective e = cc

syscall_ok : (e : GoError) → translate_syscall_error e ≡ some Codes.ok → SaysOk e
unfolding translate_syscall_error
syscall_ok (errno n) h = inl (ap errno (translate_errno-ok n (some_injective h)))
syscall_ok (path_error p (errno n)) h =
    inr (inl (p, ap (λ k. path_error p (errno k)) (translate_errno-ok n (some_injective h))))
syscall_ok e h = absurd (cc h)

-- An error gets the status code `SSH_FX_OK` only when it says so itself.
pub status_code-ok : (e : GoError) → status_code e ≡ Codes.ok → SaysOk e
unfolding status_code
status_code-ok e h = elim (Option-cases (translate_syscall_error e)) [
  | inl t ↦ inr (inr (ground arith))
  | inr (code, t) ↦ syscall_ok e (ground arith)
]
