-- ===== src/Csi.antt =====
-- The CSI driver: integrations/kubernetes.
pub mod Ids
pub mod Lists
pub mod Labels
pub mod Params
pub mod Tracker
pub mod Requests
pub mod Controller
pub mod Publish
pub mod Snapshots
mod Tests
