-- ===== src/Storage/Samples.antt =====
-- Hosts, records and requests for the tests of the handlers.
use btrfs_nfs_csi.Base.{true, false, [], ◌∷◌, none, some, Bytes, codes}
use btrfs_nfs_csi.Base.Int.{pos}
use btrfs_nfs_csi.Validate.{Labels, label_created_by}
use btrfs_nfs_csi.Storage.Model.{
  VolumeCreateRequest, SnapshotCreateRequest, CloneCreateRequest, VolumeCloneRequest,
  VolumeMetadata, SnapshotMetadata,
}
use btrfs_nfs_csi.Storage.Host.{Host, Config, State, done, failed, write_file, missing}
use btrfs_nfs_csi.Storage.Model.{ExportMetadata, VolumeUpdateRequest}

-- A full disk: no file can be written, all else works.
abbrev pub full_disk : Host
full_disk = record {
  respond = λ t c. elim c [ write_file p d ↦ failed | _ ↦ done ];
  volume_at = λ t p. missing;
  snapshot_at = λ t p. missing;
}

abbrev pub cfg : Config
cfg = record {
  base_path = codes "srv" ∷ [];
  quota_enabled = true;
  default_dir_mode = 0o700;
  default_data_mode = codes "2770";
  immutable_label_keys = label_created_by ∷ [];
}

abbrev pub tenant : Bytes
tenant = codes "default"

abbrev pub owned : Labels
owned = (label_created_by, codes "k8s") ∷ []

abbrev pub db : VolumeMetadata
db = record {
  name = codes "db";
  path = [];
  size_bytes = 4096;
  nocow = true;
  compression = [];
  quota_bytes = 4096;
  used_bytes = 0;
  uid = pos 0;
  gid = pos 0;
  mode = codes "2770";
  labels = owned;
  exports = [];
  created_at = 1;
  updated_at = 1;
  last_attach_at = none;
}

abbrev pub nightly : SnapshotMetadata
nightly = record {
  name = codes "nightly";
  volume = codes "db";
  path = [];
  size_bytes = 4096;
  used_bytes = 0;
  exclusive_bytes = 0;
  quota_bytes = 4096;
  nocow = true;
  compression = [];
  uid = pos 0;
  gid = pos 0;
  mode = codes "2770";
  labels = owned;
  created_at = 2;
  updated_at = 2;
}

abbrev pub with_db : State
with_db = record {
  volumes = (codes "default/db", db) ∷ [];
  snapshots = (codes "default/nightly", nightly) ∷ [];
  trace = [];
}

abbrev pub web_request : VolumeCreateRequest
web_request = record {
  name = codes "web";
  size_bytes = 1024;
  nocow = false;
  compression = codes "zstd:3";
  quota_bytes = 0;
  uid = pos 1000;
  gid = pos 1000;
  mode = [];
  labels = owned;
}

abbrev pub hourly_request : SnapshotCreateRequest
hourly_request = record { volume = codes "db"; name = codes "hourly"; labels = owned }

abbrev pub copy_request : VolumeCloneRequest
copy_request = record { source = codes "db"; name = codes "copy"; labels = owned }

abbrev pub restore_request : CloneCreateRequest
restore_request = record { snapshot = codes "nightly"; name = codes "restored"; labels = owned }

abbrev pub node_a : Bytes
node_a = codes "10.0.0.1"

abbrev pub node_b : Bytes
node_b = codes "10.0.0.2"

abbrev pub export_to : Bytes → ExportMetadata
export_to client = record { ip = client; labels = owned; created_at = 3 }

abbrev pub shared : VolumeMetadata
shared = record db { exports = export_to node_a ∷ export_to node_b ∷ [] }

abbrev pub with_shared : State
with_shared = record with_db { volumes = (codes "default/db", shared) ∷ [] }

abbrev pub packed : VolumeMetadata
packed = record db { nocow = false; compression = codes "zstd" }

-- A host on which every call succeeds.
abbrev pub calm : Host
calm = record { respond = λ t c. done; volume_at = λ t p. missing; snapshot_at = λ t p. missing }

abbrev pub bigger : VolumeUpdateRequest
bigger = record {
  size_bytes = some 8192;
  nocow = none;
  compression = none;
  uid = none;
  gid = none;
  mode = none;
  labels = none;
}

abbrev pub grown : VolumeMetadata
grown = record db { size_bytes = 8192; quota_bytes = 8192; updated_at = 9 }
