-- ===== src/Csi/Tests.antt =====
-- The theorems on the CSI controller, applied to one claim, one node and one agent.
use btrfs_nfs_csi.Base.{
  ℕ, ◌≡◌, refl, true, [], ◌∷◌, Option, none, some, Bytes, codes, ◌=b◌, lookup, ◌+◌, arith,
}
use btrfs_nfs_csi.Base.Int.{pos}
use btrfs_nfs_csi.Strconv.{atoi}
use btrfs_nfs_csi.Validate.{
  Labels, all_labels_valid, validate_labels, valid_label_key, valid_label_val, validate_uid,
}
use btrfs_nfs_csi.Storage.Model.{label_at}
use btrfs_nfs_csi.Storage.Exports.{add_export, remove_export}
use btrfs_nfs_csi.Storage.Samples.{db}
use btrfs_nfs_csi.Client.{response, agent_error}
use btrfs_nfs_csi.Csi.Labels.{merge_user_labels, label_pvc_name, parse_labels}
use btrfs_nfs_csi.Csi.Labels.Merged.{merge_user_labels-accepted}
use btrfs_nfs_csi.Csi.Params.{
  Claim, VolumeParams, no_update, resolve_volume_params, apply_string_params, pvc_name_key,
  pvc_namespace_key,
}
use btrfs_nfs_csi.Csi.Params.Accepted.{IsAccepted, resolve_volume_params-IsAccepted}
use btrfs_nfs_csi.Csi.Tracker.{Tracker, AgentInfo, client, discover_from_storage_classes}
use btrfs_nfs_csi.Csi.Tracker.Known.{last_url, client_named, client-discover_from_storage_classes}
use btrfs_nfs_csi.Csi.Controller.{create_volume}
use btrfs_nfs_csi.Csi.Requests.{Agents, CreateVolumeRequest, no_source}
use btrfs_nfs_csi.Csi.Controller.Answers.{Answered, create_volume-Answered}
use btrfs_nfs_csi.Csi.Publish.{unexport_labels}
use btrfs_nfs_csi.Csi.Publish.Undone.{sent_labels, unpublish_undoes_publish}

abbrev claim_label : Labels
claim_label = (label_pvc_name, codes "data") ∷ []

claim_label_is_valid : all_labels_valid claim_label ≡ true
unfolding all_labels_valid valid_label_key valid_label_val
claim_label_is_valid = refl

merge_user_labels-accepted_example :
    validate_labels (merge_user_labels claim_label (parse_labels (codes "team=db,BAD=1")) 8).0
    ≡ true
merge_user_labels-accepted_example =
    merge_user_labels-accepted claim_label (parse_labels (codes "team=db,BAD=1")) 8
      claim_label_is_valid (omega arith)

abbrev parameters : Labels
parameters =
    (codes "uid", codes "1000")
    ∷ (codes "nfsServer", codes "10.0.0.2")
    ∷ (codes "agentURL", codes "http://a:8080")
    ∷ (pvc_name_key, codes "data")
    ∷ (pvc_namespace_key, codes "app")
    ∷ []

abbrev claim : Claim
claim = record {
  storage_class_name = some (codes "fast");
  annotations =
      (codes "btrfs-nfs-csi/mode", codes "0750") ∷ (codes "btrfs-nfs-csi/gid", codes "70000") ∷ [];
}

abbrev one_claim : Bytes → Bytes → Option Claim
one_claim ns name = some claim

abbrev params_of : Option VolumeParams → VolumeParams
params_of none = record { storage_class = []; params_labels = none; request = no_update }
params_of (some vp) = vp

abbrev resolved : VolumeParams
resolved = params_of (resolve_volume_params one_claim [] (codes "k8s") parameters)

is_resolved : resolve_volume_params one_claim [] (codes "k8s") parameters ≡ some resolved
unfolding resolve_volume_params apply_string_params label_at lookup ◌=b◌ atoi validate_uid
is_resolved = refl

resolve_volume_params-IsAccepted_example : IsAccepted resolved.request
resolve_volume_params-IsAccepted_example =
    resolve_volume_params-IsAccepted one_claim [] (codes "k8s") parameters resolved is_resolved

abbrev nobody : Tracker
nobody = record { agents = []; sc_to_url = [] }

abbrev found : AgentInfo
found = record { sc_name = codes "fast"; url = codes "http://a:8080"; token = codes "t" }

client-discover_from_storage_classes_example :
    client (discover_from_storage_classes (found ∷ []) nobody) (codes "fast")
    ≡ client_named (found ∷ []) nobody (last_url (found ∷ []) (codes "fast"))
client-discover_from_storage_classes_example =
    client-discover_from_storage_classes (found ∷ []) nobody (codes "fast")

-- An agent that makes every volume, and counts them.
abbrev willing : Agents
willing = record {
  World = ℕ;
  create_volume =
      λ c r w. (response record { path = codes "/p"; size_bytes = r.size_bytes }, w + 1);
  create_clone = λ c r w. (response record { path = codes "/p"; size_bytes = 1 }, w + 1);
  clone_volume = λ c r w. (response record { path = codes "/p"; size_bytes = 1 }, w + 1);
  update_volume = λ c n u w. (none, w);
  delete_volume = λ c n w. (some (agent_error 404), w);
  create_snapshot = λ c r w. (response record { size_bytes = 0; created_at = 0 }, w);
  delete_snapshot = λ c n w. (none, w);
  create_volume_export = λ c n ip l w. (none, w);
  delete_volume_export = λ c n ip l w. (none, w);
}

abbrev request : CreateVolumeRequest
request = record {
  name = codes "pvc-1";
  parameters = parameters;
  secrets = (codes "agentToken", codes "t") ∷ [];
  capacity_range = record { required_bytes = pos 4096; limit_bytes = pos 0 };
  source = no_source;
}

create_volume-Answered_example :
    Answered request
      (create_volume willing
        (resolve_volume_params one_claim [] (codes "k8s"))
        request
        (nobody, 0)).0
create_volume-Answered_example =
    create_volume-Answered willing request (resolve_volume_params one_claim [] (codes "k8s")) nobody
      0

unpublish_undoes_publish_example :
    (remove_export
      (codes "10.0.0.1")
      (some (unexport_labels (codes "fast") (codes "db") (codes "n1")))
      9
      (add_export
        (codes "10.0.0.1")
        (sent_labels
          (codes "k8s")
          (λ s. s)
          (codes "fast|db")
          (codes "fast")
          (codes "db")
          (codes "n1")
          parameters)
        5
        db)).exports
    ≡ (remove_export
        (codes "10.0.0.1")
        (some (unexport_labels (codes "fast") (codes "db") (codes "n1")))
        9
        db).exports
unpublish_undoes_publish_example =
    unpublish_undoes_publish (codes "k8s") (λ s. s) (codes "fast|db") (codes "fast") (codes "db")
      (codes "n1") (codes "10.0.0.1") parameters 5 9 db
