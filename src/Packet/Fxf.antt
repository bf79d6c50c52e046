-- ===== src/Packet/Fxf.antt =====
-- sftp.go: the flags of an open request.
use sftp_go.Base.{ℕ}

abbrev pub read : ℕ
read = 0x00000001

abbrev pub write : ℕ
write = 0x00000002

abbrev pub append : ℕ
append = 0x00000004

abbrev pub creat : ℕ
creat = 0x00000008

abbrev pub trunc : ℕ
trunc = 0x00000010

abbrev pub excl : ℕ
excl = 0x00000020
