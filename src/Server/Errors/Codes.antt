-- ===== src/Server/Errors/Codes.antt =====
-- sftp.go: the status codes that the server sends.
use sftp_go.Base.{ℕ}

abbrev pub ok : ℕ
ok = 0

abbrev pub eof : ℕ
eof = 1

abbrev pub no_such_file : ℕ
no_such_file = 2

abbrev pub permission_denied : ℕ
permission_denied = 3

abbrev pub failure : ℕ
failure = 4

abbrev pub op_unsupported : ℕ
op_unsupported = 8
