-- ===== src/Csi/Controller.antt =====
-- integrations/kubernetes/controller/volumes.go and snapshots.go: the calls of the CSI controller
-- that create, delete and expand, over an agent behind its client.
pub mod Answers
use btrfs_nfs_csi.Base.{
  ℕ, ◌≡◌, refl, ◌*◌, ◌^◌, Bool, true, false, not, ◌&&◌, ◌||◌, List, [], ◌∷◌, ◌++◌, Option, none,
  some, Bytes, codes, Dict, ◌=b◌, ltb, ◌==◌, lookup, insert, if◌then◌else◌,
}
use btrfs_nfs_csi.Base.Int.{ℤ, pos, above, to_ℕ}
use btrfs_nfs_csi.Validate.{Labels}
use btrfs_nfs_csi.Storage.Model.{
  VolumeCreateRequest, VolumeUpdateRequest, VolumeCloneRequest, CloneCreateRequest, label_at,
}
use btrfs_nfs_csi.Client.{
  RequestError, Response, response, conflict, request_error, is_conflict, is_not_found, is_locked,
}
use btrfs_nfs_csi.Csi.Ids.{make_volume_id, parse_volume_id}
use btrfs_nfs_csi.Csi.Params.{VolumeParams, no_update, pvc_name_key, pvc_namespace_key}
use btrfs_nfs_csi.Csi.Tracker.{
  Client, Tracker, track, Code, invalid_argument, failed_precondition, internal, Reply, ok, refused,
  agent_client_from_secrets, agent_client_from_storage_class, param_agent_url,
}
use btrfs_nfs_csi.Csi.Requests.{
  VolumeDetail, Agents, ContentSource, CapacityRange, requested_size, CreateVolumeRequest,
  CreatedVolume, param_nfs_server, param_nfs_share_path, volume_context, or_nil, create_request,
  no_source, from_volume, from_snapshot, unsupported,
}

module _ (A : Agents) where
  -- A clone that is smaller than what is asked for is expanded; an error of that is only logged.
  unfoldable pub expand_clone : Client → Bytes → ℕ → VolumeDetail → A.World → A.World
  expand_clone c name size v w =
      if ltb v.size_bytes size
      then (A.update_volume c name (record no_update { size_bytes = some size }) w).1
      else w

  created : Bytes → Bytes → ℕ → Labels → VolumeDetail → CreatedVolume
  created sc name size ctx v = record {
    volume_id = make_volume_id sc name;
    capacity_bytes = size;
    volume_context = insert param_nfs_share_path v.path ctx;
  }

  -- A conflict carries the record of the volume that was there.
  cloned :
      Client
      → Bytes
      → Bytes
      → ℕ
      → Labels
      → Response VolumeDetail × A.World
      → Reply CreatedVolume × A.World
  unfolding created
  cloned c sc name size ctx (response v, w) =
      (ok (created sc name size ctx v), expand_clone c name size v w)
  cloned c sc name size ctx (conflict v, w) =
      (ok (created sc name size ctx v), expand_clone c name size v w)
  cloned c sc name size ctx (request_error e, w) = (refused internal, w)

  made :
      Bytes → Bytes → ℕ → Labels → Response VolumeDetail × A.World → Reply CreatedVolume × A.World
  unfolding created
  made sc name size ctx (response v, w) = (ok (created sc name size ctx v), w)
  made sc name size ctx (conflict v, w) = (ok (created sc name size ctx v), w)
  made sc name size ctx (request_error e, w) = (refused internal, w)

  -- From the content source on.
  unfoldable pub provision :
      Client
      → VolumeParams
      → Bytes
      → ℕ
      → Labels
      → ContentSource
      → A.World
      → Reply CreatedVolume × A.World
  unfolding cloned made
  provision c vp name size ctx no_source w =
      made vp.storage_class name size ctx (A.create_volume c (create_request name size vp) w)
  provision c vp name size ctx unsupported w = (refused invalid_argument, w)
  provision c vp name size ctx (from_volume id) w = elim (parse_volume_id id) [
    | none ↦ (refused invalid_argument, w)
    | some (_, source) ↦ cloned c vp.storage_class name size ctx (
        A.clone_volume c record { source = source; name = name; labels = or_nil vp.params_labels }
          w)
  ]
  provision c vp name size ctx (from_snapshot id) w = elim (parse_volume_id id) [
    | none ↦ (refused invalid_argument, w)
    | some (_, source) ↦ cloned c vp.storage_class name size ctx (
        A.create_clone c record { snapshot = source; name = name; labels = or_nil vp.params_labels }
          w)
  ]

  with_params :
      Client → CreateVolumeRequest → Option VolumeParams → A.World → Reply CreatedVolume × A.World
  with_params c req none w = (refused invalid_argument, w)
  with_params c req (some vp) w =
      if vp.storage_class =b []
      then (refused internal, w)
      else provision c vp req.name (requested_size (2 ^ 30) req.capacity_range)
          (volume_context req.parameters) req.source w

  with_client :
      (Labels → Option VolumeParams)
      → CreateVolumeRequest
      → Reply Client
      → Tracker × A.World
      → Reply CreatedVolume × (Tracker × A.World)
  unfolding with_params
  with_client resolve req (refused code) (t, w) = (refused code, (t, w))
  with_client resolve req (ok c) (t, w) =
      let r = with_params c req (resolve req.parameters) w in
      (r.0, (track (label_at req.parameters param_agent_url) c t, r.1))

  -- CreateVolume, with the parameters that resolveVolumeParams finds.
  unfoldable pub create_volume :
      (Labels → Option VolumeParams)
      → CreateVolumeRequest
      → Tracker × A.World
      → Reply CreatedVolume × (Tracker × A.World)
  unfolding with_client
  create_volume resolve req s =
      if req.name =b []
      then (refused invalid_argument, s)
      else if label_at req.parameters param_nfs_server =b []
          || label_at req.parameters param_agent_url =b []
      then (refused invalid_argument, s)
      else with_client resolve req
          (agent_client_from_secrets (label_at req.parameters param_agent_url) req.secrets) s

  -- A call to the agent of a volume or snapshot, by its id.
  on_agent :
      {B : Type 0}
      → (Client → A.World → Reply B × A.World)
      → Reply Client × Tracker
      → A.World
      → Reply B × (Tracker × A.World)
  on_agent f (refused code, t) w = (refused code, (t, w))
  on_agent f (ok c, t) w = let r = f c w in (r.0, (t, r.1))

  unfoldable pub by_id :
      {B : Type 0}
      → Bytes
      → Labels
      → (Bytes → Bytes → Client → A.World → Reply B × A.World)
      → Tracker × A.World
      → Reply B × (Tracker × A.World)
  unfolding on_agent
  by_id id secrets f (t, w) =
      if id =b [] then (refused invalid_argument, (t, w)) else elim (parse_volume_id id) [
        | none ↦ (refused invalid_argument, (t, w))
        | some (sc, name) ↦ on_agent (f sc name) (agent_client_from_storage_class sc secrets t) w
      ]

  -- The answer to a deletion: a volume that is not found counts as deleted.
  unfoldable pub deleted : Bool → Option RequestError × A.World → Reply Unit × A.World
  deleted may_lock (none, w) = (ok tt, w)
  deleted may_lock (some e, w) =
      if is_not_found e
      then (ok tt, w)
      else if may_lock && is_locked e
      then (refused failed_precondition, w)
      else (refused internal, w)

  unfoldable pub delete_volume :
      Bytes → Labels → Tracker × A.World → Reply Unit × (Tracker × A.World)
  delete_volume id secrets = by_id id secrets λ sc name c w. deleted true (A.delete_volume c name w)

  unfoldable pub delete_snapshot :
      Bytes → Labels → Tracker × A.World → Reply Unit × (Tracker × A.World)
  delete_snapshot id secrets =
      by_id id secrets λ sc name c w. deleted false (A.delete_snapshot c name w)

  expanded : ℕ → Option RequestError × A.World → Reply ℕ × A.World
  expanded size (none, w) = (ok size, w)
  expanded size (some e, w) = (refused internal, w)

  unfoldable pub controller_expand_volume :
      Bytes → Labels → CapacityRange → Tracker × A.World → Reply ℕ × (Tracker × A.World)
  unfolding expanded
  controller_expand_volume id secrets range = by_id id secrets λ sc name c w.
      let size = requested_size 0 range in
      if size == 0
      then (refused invalid_argument, w)
      else expanded size (A.update_volume c name (record no_update { size_bytes = some size }) w)
