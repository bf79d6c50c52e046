-- ===== src/Modes/Os.antt =====
-- The bits of Go's `os.FileMode` that stat.go reads and writes.
use sftp_go.Base.{ℕ, ◌+◌, ◌^◌}

abbrev pub mode_dir : ℕ
mode_dir = 2 ^ 31

abbrev pub mode_symlink : ℕ
mode_symlink = 2 ^ 27

abbrev pub mode_device : ℕ
mode_device = 2 ^ 26

abbrev pub mode_named_pipe : ℕ
mode_named_pipe = 2 ^ 25

abbrev pub mode_socket : ℕ
mode_socket = 2 ^ 24

abbrev pub mode_setuid : ℕ
mode_setuid = 2 ^ 23

abbrev pub mode_setgid : ℕ
mode_setgid = 2 ^ 22

abbrev pub mode_char_device : ℕ
mode_char_device = 2 ^ 21

abbrev pub mode_sticky : ℕ
mode_sticky = 2 ^ 20

abbrev pub mode_irregular : ℕ
mode_irregular = 2 ^ 19

abbrev pub mode_perm : ℕ
mode_perm = 0x1ff

abbrev pub mode_type : ℕ
mode_type =
    mode_dir + mode_symlink + mode_named_pipe + mode_socket + mode_device + mode_char_device
    + mode_irregular
