-- ===== src/Wtpool.antt =====
-- The crate `wtpool`, the worktree server with its lease pool and merge gate.
pub mod Lease
pub mod CumulativeMd
pub mod Cache
pub mod Pool
pub mod Merge
