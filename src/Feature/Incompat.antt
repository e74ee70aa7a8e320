-- ===== src/Feature/Incompat.antt =====
-- The `OCFS2_FEATURE_INCOMPAT_*` flags of include/ocfs2-kernel/ocfs2_fs.h.
use debian_ocfs2_tools.Base.{ℕ}

abbrev pub heartbeat_dev : ℕ
heartbeat_dev = 0x0002

abbrev pub resize_inprog : ℕ
resize_inprog = 0x0004

abbrev pub local_mount : ℕ
local_mount = 0x0008

abbrev pub sparse_alloc : ℕ
sparse_alloc = 0x0010

abbrev pub tunefs_inprog : ℕ
tunefs_inprog = 0x0020

abbrev pub inline_data : ℕ
inline_data = 0x0040

abbrev pub userspace_stack : ℕ
userspace_stack = 0x0080

abbrev pub extended_slot_map : ℕ
extended_slot_map = 0x0100

abbrev pub xattr : ℕ
xattr = 0x0200

abbrev pub meta_ecc : ℕ
meta_ecc = 0x0800
