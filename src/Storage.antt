-- ===== src/Storage.antt =====
-- agent/storage: volumes, snapshots, clones and NFS exports over a metadata cache.
pub mod Model
pub mod Host
pub mod Exec
pub mod Disk
pub mod Tenant
pub mod Meta
pub mod Labels
pub mod Volumes
pub mod Access
pub mod Update
pub mod Clones
pub mod Snapshots
pub mod Exports
pub mod InPlace
pub mod Orphans
pub mod Success
pub mod Growth
pub mod Layout
pub mod Refusals
pub mod References
pub mod Usage
pub mod Cache
pub mod Samples
pub mod Tests
