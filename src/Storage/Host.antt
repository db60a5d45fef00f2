-- ===== src/Storage/Host.antt =====
-- The world outside the agent: the file system, the btrfs tool and the NFS exporter, which are not
-- modelled. A host answers each call from the calls before it; a state holds the two caches and
-- the log of calls with their answers, the newest first.
use btrfs_nfs_csi.Base.{ℕ, Bool, true, false, List, Bytes, codes, Dict}
use btrfs_nfs_csi.Base.Int.{ℤ}
use btrfs_nfs_csi.Storage.Model.{VolumeMetadata, SnapshotMetadata}

-- A path as its segments.
abbrev pub FilePath : Type 0
FilePath = List Bytes

pub data Document : Type 0 where
  volume_document : VolumeMetadata → Document
  snapshot_document : SnapshotMetadata → Document

pub data Call : Type 0 where
  stat remove remove_all : FilePath → Call
  mkdir_all : FilePath → ℕ → Call
  write_file : FilePath → Document → Call
  read_file : FilePath → Call
  rename : FilePath → FilePath → Call
  set_immutable : FilePath → Bool → Call
  lock unlock : FilePath → Call
  subvolume_create subvolume_delete : FilePath → Call
  subvolume_snapshot : FilePath → FilePath → Bool → Call
  set_nocow : FilePath → Call
  set_compression : FilePath → Bytes → Call
  qgroup_limit : FilePath → ℕ → Call
  chmod : FilePath → ℕ → Call
  chown : FilePath → ℤ → ℤ → Call
  nfs_export nfs_unexport : FilePath → Bytes → Call

-- `target_exists` is the failure whose message says "target path already exists".
pub data Outcome : Type 0 where
  done not_exist target_exists failed : Outcome

abbrev pub Event : Type 0
Event = Call × Outcome

-- What readJSON yields: a document, os.ErrNotExist, or any other error.
pub data Read (T : Type 0) : Type 0 where
  got : T → Read T
  missing broken : Read T

pub record Host : Type 0 where
  pub respond : List Event → Call → Outcome
  pub volume_at : List Event → FilePath → Read VolumeMetadata
  pub snapshot_at : List Event → FilePath → Read SnapshotMetadata

-- A host on which every call succeeds, with any files.
abbrev pub working :
    (List Event → FilePath → Read VolumeMetadata)
    → (List Event → FilePath → Read SnapshotMetadata)
    → Host
working volume_at snapshot_at = record {
  respond = λ t c. done;
  volume_at = volume_at;
  snapshot_at = snapshot_at;
}

pub record Config : Type 0 where
  pub base_path : FilePath
  pub quota_enabled : Bool
  pub default_dir_mode : ℕ
  pub default_data_mode : Bytes
  pub immutable_label_keys : List Bytes

pub record State : Type 0 where
  pub volumes : Dict VolumeMetadata
  pub snapshots : Dict SnapshotMetadata
  pub trace : List Event

abbrev pub data_dir : Bytes
data_dir = codes "data"

abbrev pub metadata_file : Bytes
metadata_file = codes "metadata.json"

abbrev pub snapshots_dir : Bytes
snapshots_dir = codes "snapshots"

-- The calls that a store makes.
abbrev pub is_meta_call : Call → Bool
is_meta_call (write_file p d) = true
is_meta_call (read_file p) = true
is_meta_call (rename p q) = true
is_meta_call (remove p) = true
is_meta_call (set_immutable p b) = true
is_meta_call (lock p) = true
is_meta_call (unlock p) = true
is_meta_call _ = false
