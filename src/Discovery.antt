-- ===== src/Discovery.antt =====
-- discovery/: instances found in Consul, snapshots of them, queries and watches.
pub mod Instance
pub mod Order
pub mod Equal
pub mod Diff
pub mod Snapshot
pub mod Query
pub mod Watch
