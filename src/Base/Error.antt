-- ===== src/Base/Error.antt =====
-- sys/fs/hammer2/hammer2.h: the error codes `HAMMER2_ERROR_xxx` that the models return.
use Prim.Native.Nat.{ℕ}

abbrev pub eio : ℕ
eio = 0x00000001

abbrev pub enospc : ℕ
enospc = 0x00000020

abbrev pub enoent : ℕ
enoent = 0x00000040

abbrev pub eagain : ℕ
eagain = 0x00000100

abbrev pub einprogress : ℕ
einprogress = 0x00000800

abbrev pub edeadlk : ℕ
edeadlk = 0x00010000

abbrev pub esrch : ℕ
esrch = 0x00020000

abbrev pub enotconn : ℕ
enotconn = 0x00080000
