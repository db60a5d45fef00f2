-- ===== src/Api/Tests.antt =====
-- A deletion of a volume that is not there, from end to end.
use btrfs_nfs_csi.Base.{◌≡◌, true, [], none, codes}
use btrfs_nfs_csi.Storage.Samples.{full_disk, cfg, tenant}
use btrfs_nfs_csi.Storage.Host.{State}
use btrfs_nfs_csi.Storage.Access
use btrfs_nfs_csi.Client.{response, request_outcome}
use btrfs_nfs_csi.Csi.Controller.{deleted}
use btrfs_nfs_csi.Csi.Requests.{Agents}
use btrfs_nfs_csi.Client.{request_error, agent_error}
use btrfs_nfs_csi.Api.{delete_volume}
use btrfs_nfs_csi.Api.Answers.{status_of, expected, deleted-delete_volume}

-- Agents that refuse everything, and have no state.
abbrev silent : Agents
silent = record {
  World = Unit;
  create_volume = λ c r w. (request_error (agent_error 500), w);
  create_clone = λ c r w. (request_error (agent_error 500), w);
  clone_volume = λ c r w. (request_error (agent_error 500), w);
  update_volume = λ c n u w. (none, w);
  delete_volume = λ c n w. (none, w);
  create_snapshot = λ c r w. (response record { size_bytes = 0; created_at = 0 }, w);
  delete_snapshot = λ c n w. (none, w);
  create_volume_export = λ c n ip l w. (none, w);
  delete_volume_export = λ c n ip l w. (none, w);
}

abbrev nothing : State
nothing = record { volumes = []; snapshots = []; trace = [] }

deleted-delete_volume_example :
    (deleted silent true (
      request_outcome (status_of (delete_volume full_disk cfg tenant (codes "db") nothing).0),
      tt,
    )).0
    ≡ expected (Access.delete_volume full_disk cfg tenant (codes "db") nothing).0
deleted-delete_volume_example =
    deleted-delete_volume silent tt full_disk cfg tenant (codes "db") nothing
