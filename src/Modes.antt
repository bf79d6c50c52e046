-- ===== src/Modes.antt =====
-- stat.go: file modes between the protocol's bits (those of POSIX) and Go's `os.FileMode`.
pub mod Posix
pub mod Os
pub mod RoundTrip
use sftp_go.Base.{ℕ, bit_and, bit_or, Bool, ◌==◌, if◌then◌else◌}
use sftp_go.Attrs.{has_any}

-- `isRegular`.
unfoldable pub is_regular : ℕ → Bool
is_regular mode = bit_and mode Posix.mode_type == Posix.mode_regular

-- `if mode&from != 0 { fm |= into }`.
abbrev pub carry_flag : ℕ → ℕ → ℕ → ℕ → ℕ
carry_flag mode from into fm = if has_any mode from then bit_or fm into else fm

-- The first switch of `toFileMode`, on the type bits.
unfoldable pub to_type : ℕ → ℕ → ℕ
to_type mode fm =
    if bit_and mode Posix.mode_type == Posix.mode_device
    then bit_or fm Os.mode_device
    else if bit_and mode Posix.mode_type == Posix.mode_char_device
    then bit_or fm (bit_or Os.mode_device Os.mode_char_device)
    else if bit_and mode Posix.mode_type == Posix.mode_dir
    then bit_or fm Os.mode_dir
    else if bit_and mode Posix.mode_type == Posix.mode_named_pipe
    then bit_or fm Os.mode_named_pipe
    else if bit_and mode Posix.mode_type == Posix.mode_symlink
    then bit_or fm Os.mode_symlink
    else if bit_and mode Posix.mode_type == Posix.mode_regular
    then fm
    else if bit_and mode Posix.mode_type == Posix.mode_socket
    then bit_or fm Os.mode_socket
    else fm

unfoldable pub to_file_mode : ℕ → ℕ
to_file_mode mode = carry_flag mode Posix.mode_sticky Os.mode_sticky (
    carry_flag mode Posix.mode_set_gid Os.mode_setgid
      (carry_flag mode Posix.mode_set_uid Os.mode_setuid (to_type mode (bit_and mode 0x1ff))))

-- The switch of `fromFileMode`.
unfoldable pub from_type : ℕ → ℕ → ℕ
from_type mode ret =
    if bit_and mode Os.mode_type == bit_or Os.mode_device Os.mode_char_device
    then bit_or ret Posix.mode_char_device
    else if bit_and mode Os.mode_type == Os.mode_device
    then bit_or ret Posix.mode_device
    else if bit_and mode Os.mode_type == Os.mode_dir
    then bit_or ret Posix.mode_dir
    else if bit_and mode Os.mode_type == Os.mode_named_pipe
    then bit_or ret Posix.mode_named_pipe
    else if bit_and mode Os.mode_type == Os.mode_symlink
    then bit_or ret Posix.mode_symlink
    else if bit_and mode Os.mode_type == 0
    then bit_or ret Posix.mode_regular
    else if bit_and mode Os.mode_type == Os.mode_socket
    then bit_or ret Posix.mode_socket
    else ret

unfoldable pub from_file_mode : ℕ → ℕ
from_file_mode mode = carry_flag mode Os.mode_sticky Posix.mode_sticky (
    carry_flag mode Os.mode_setgid Posix.mode_set_gid (
      carry_flag mode Os.mode_setuid Posix.mode_set_uid
        (from_type mode (bit_and mode Os.mode_perm))))
