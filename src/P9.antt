-- ===== src/P9.antt =====
-- The virtio-9p transport of src/c/zbc_transport_9p.c, a module for each part.
pub mod Wire
pub mod Session
pub mod Message
pub mod Rpc
pub mod Walk
pub mod Files
pub mod Paths
pub mod Dirs
pub mod Transport
