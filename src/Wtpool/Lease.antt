-- ===== src/Wtpool/Lease.antt =====
-- wtpool/src/lease.rs: the worktree lease, its validators and its emitter. What comes from outside
-- the crate is an argument: the deserializer of `from_json_bytes`, `fs::canonicalize` of
-- `matches_cwd`, and the clock of `into_lease`. A path is a `Str`.
pub mod Glob
pub mod Time
pub mod Contract
