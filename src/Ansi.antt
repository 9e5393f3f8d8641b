-- ===== src/Ansi.antt =====
-- The ANSI file backends: src/c/zbc_ansi_secure.c, zbc_ansi_common.c and zbc_backend_ansi.h.
pub mod Normalize
pub mod Fds
pub mod State
pub mod Validate
pub mod Secure
