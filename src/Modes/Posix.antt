-- ===== src/Modes/Posix.antt =====
-- internal/encoding/ssh/filexfer/permissions.go: the bits of a file mode in the protocol.
use sftp_go.Base.{ℕ}

abbrev pub mode_perm : ℕ
mode_perm = 0x1ff

abbrev pub mode_set_uid : ℕ
mode_set_uid = 0x800

abbrev pub mode_set_gid : ℕ
mode_set_gid = 0x400

abbrev pub mode_sticky : ℕ
mode_sticky = 0x200

abbrev pub mode_type : ℕ
mode_type = 0xf000

abbrev pub mode_named_pipe : ℕ
mode_named_pipe = 0x1000

abbrev pub mode_char_device : ℕ
mode_char_device = 0x2000

abbrev pub mode_dir : ℕ
mode_dir = 0x4000

abbrev pub mode_device : ℕ
mode_device = 0x6000

abbrev pub mode_regular : ℕ
mode_regular = 0x8000

abbrev pub mode_symlink : ℕ
mode_symlink = 0xa000

abbrev pub mode_socket : ℕ
mode_socket = 0xc000
