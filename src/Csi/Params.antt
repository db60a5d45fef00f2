-- ===== src/Csi/Params.antt =====
-- The parameters of a volume, from its storage class and from the annotations of its claim:
-- applyStringParams, resolveVolumeParams, hasUpdates and updateRequest of
-- integrations/kubernetes/controller/pvc.go.
pub mod Accepted
use btrfs_nfs_csi.Base.{
  ℕ, ◌≡◌, refl, Bool, true, false, not, ◌&&◌, ◌||◌, List, [], ◌∷◌, ◌++◌, Option, none, some, Bytes,
  codes, Dict, ◌=b◌, lookup, is_none, if◌then◌else◌,
}
use btrfs_nfs_csi.Base.Int.{ℤ}
use btrfs_nfs_csi.Strconv.{atoi}
use btrfs_nfs_csi.Validate.{
  Labels, label_created_by, is_valid_compression, validate_uid, validate_gid, validate_mode,
}
use btrfs_nfs_csi.Storage.Model.{VolumeUpdateRequest, label_at}
use btrfs_nfs_csi.Csi.Labels.{
  label_pvc_name, label_pvc_namespace, label_pvc_storage_class, max_user_labels, add_defaults,
  merge_user_labels, parse_labels,
}

-- The map of labels is nil at first. `request` is the embedded VolumeUpdateRequest.
pub record VolumeParams : Type 0 where
  pub storage_class : Bytes
  pub params_labels : Option Labels
  pub request : VolumeUpdateRequest

abbrev pub no_update : VolumeUpdateRequest
no_update = record {
  size_bytes = none;
  nocow = none;
  compression = none;
  uid = none;
  gid = none;
  mode = none;
  labels = none;
}

abbrev pub no_params : VolumeParams
no_params = record { storage_class = []; params_labels = none; request = no_update }

abbrev pub param_nocow : Bytes
param_nocow = codes "nocow"

abbrev pub param_compression : Bytes
param_compression = codes "compression"

abbrev pub param_uid : Bytes
param_uid = codes "uid"

abbrev pub param_gid : Bytes
param_gid = codes "gid"

abbrev pub param_mode : Bytes
param_mode = codes "mode"

abbrev pub param_labels : Bytes
param_labels = codes "labels"

-- csiserver.DriverName, and the prefix of the annotations.
abbrev pub driver_name : Bytes
driver_name = codes "btrfs-nfs-csi"

abbrev pub anno_prefix : Bytes
anno_prefix = driver_name ++ codes "/"

abbrev pub and_then :
    Option VolumeUpdateRequest
    → (VolumeUpdateRequest → Option VolumeUpdateRequest)
    → Option VolumeUpdateRequest
and_then none f = none
and_then (some u) f = f u

-- The five parameters. A missing one and an empty one are passed over; `none` is the error.
unfoldable pub apply_nocow : Bytes → VolumeUpdateRequest → Option VolumeUpdateRequest
apply_nocow v u =
    if v =b []
    then some u
    else if not (v =b codes "true") && not (v =b codes "false")
    then none
    else some (record u { nocow = some (v =b codes "true") })

unfoldable pub apply_compression : Bytes → VolumeUpdateRequest → Option VolumeUpdateRequest
apply_compression v u =
    if v =b []
    then some u
    else if not (is_valid_compression v)
    then none
    else some (record u { compression = some v })

checked_uid : VolumeUpdateRequest → Option ℤ → Option VolumeUpdateRequest
checked_uid u none = none
checked_uid u (some uid) = if validate_uid uid then some (record u { uid = some uid }) else none

unfoldable pub apply_uid : Bytes → VolumeUpdateRequest → Option VolumeUpdateRequest
unfolding checked_uid
apply_uid v u = if v =b [] then some u else checked_uid u (atoi v)

checked_gid : VolumeUpdateRequest → Option ℤ → Option VolumeUpdateRequest
checked_gid u none = none
checked_gid u (some gid) = if validate_gid gid then some (record u { gid = some gid }) else none

unfoldable pub apply_gid : Bytes → VolumeUpdateRequest → Option VolumeUpdateRequest
unfolding checked_gid
apply_gid v u = if v =b [] then some u else checked_gid u (atoi v)

unfoldable pub apply_mode : Bytes → VolumeUpdateRequest → Option VolumeUpdateRequest
apply_mode v u =
    if v =b []
    then some u
    else if is_none (validate_mode v)
    then none
    else some (record u { mode = some v })

-- What an error leaves set is not read: the caller returns, or the map has one key.
unfoldable pub apply_string_params : Labels → VolumeUpdateRequest → Option VolumeUpdateRequest
unfolding apply_nocow apply_compression apply_uid apply_gid apply_mode
apply_string_params params u = and_then (apply_nocow (label_at params param_nocow) u) λ u1.
    and_then (apply_compression (label_at params param_compression) u1) λ u2.
      and_then (apply_uid (label_at params param_uid) u2) λ u3.
        and_then (apply_gid (label_at params param_gid) u3)
          λ u4. apply_mode (label_at params param_mode) u4

-- A claim as the API server returns it.
pub record Claim : Type 0 where
  pub storage_class_name : Option Bytes
  pub annotations : Labels

abbrev or_empty : Option Bytes → Bytes
or_empty none = []
or_empty (some s) = s

-- One annotation, under its key: one that is refused is passed over.
unfoldable pub apply_annotation : Bytes → Option Bytes → VolumeUpdateRequest → VolumeUpdateRequest
apply_annotation key none u = u
apply_annotation key (some v) u = elim (apply_string_params ((key, v) ∷ []) u) [
  | none ↦ u
  | some w ↦ w
]

unfoldable pub apply_annotations : Labels → List Bytes → VolumeUpdateRequest → VolumeUpdateRequest
apply_annotations annotations [] u = u
apply_annotations annotations (key ∷ keys) u =
    apply_annotations annotations keys
      (apply_annotation key (lookup (anno_prefix ++ key) annotations) u)

abbrev pub annotated_keys : List Bytes
annotated_keys = param_nocow ∷ param_compression ∷ param_uid ∷ param_gid ∷ param_mode ∷ []

-- The labels that name the claim, with the defaults of the environment.
unfoldable pub claim_labels : Labels → Bytes → Bytes → Bytes → Bytes → Labels
claim_labels defaults identity name ns sc = add_defaults defaults (
    (label_pvc_name, name)
    ∷ (label_pvc_namespace, ns)
    ∷ (label_pvc_storage_class, sc)
    ∷ (label_created_by, identity)
    ∷ [])

unfoldable pub with_user_labels : Labels → Bytes → Labels
with_user_labels labels raw =
    if raw =b [] then labels else (merge_user_labels labels (parse_labels raw) max_user_labels).0

-- What the claim adds to the parameters of the storage class.
unfoldable pub resolve_claim :
    Labels → Bytes → Bytes → Bytes → VolumeUpdateRequest → Claim → VolumeParams
unfolding with_user_labels
resolve_claim defaults identity name ns u claim =
    let sc = or_empty claim.storage_class_name in
    record {
      storage_class = sc;
      params_labels = some (
          with_user_labels (claim_labels defaults identity name ns sc)
            (label_at claim.annotations (anno_prefix ++ param_labels)));
      request = apply_annotations claim.annotations annotated_keys u;
    }

abbrev pub pvc_name_key : Bytes
pvc_name_key = codes "csi.storage.k8s.io/pvc/name"

abbrev pub pvc_namespace_key : Bytes
pvc_namespace_key = codes "csi.storage.k8s.io/pvc/namespace"

-- The API server is a parameter: the claim under a namespace and a name, or an error.
module _ (get_claim : Bytes → Bytes → Option Claim) (defaults : Labels) (identity : Bytes) where
  without_claim : VolumeUpdateRequest → VolumeParams
  without_claim u = record { storage_class = []; params_labels = none; request = u }

  resolve_named : Bytes → Bytes → VolumeUpdateRequest → VolumeParams
  unfolding without_claim
  resolve_named name ns u =
      if name =b [] || ns =b [] then without_claim u else elim (get_claim ns name) [
        | none ↦ without_claim u
        | some claim ↦ resolve_claim defaults identity name ns u claim
      ]

  unfoldable pub resolve_volume_params : Labels → Option VolumeParams
  unfolding resolve_named
  resolve_volume_params params = elim (apply_string_params params no_update) [
    | none ↦ none
    | some u ↦
        some (resolve_named (label_at params pvc_name_key) (label_at params pvc_namespace_key) u)
  ]

unfoldable pub has_updates : VolumeParams → Bool
has_updates vp =
    not (is_none vp.request.nocow)
    || not (is_none vp.request.compression)
    || not (is_none vp.request.uid)
    || not (is_none vp.request.gid)
    || not (is_none vp.request.mode)
    || not (is_none vp.params_labels)

unfoldable pub update_request : VolumeParams → VolumeUpdateRequest
update_request vp =
    if is_none vp.params_labels then vp.request else record vp.request { labels = vp.params_labels }
