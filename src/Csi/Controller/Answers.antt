-- ===== src/Csi/Controller/Answers.antt =====
-- What a volume that integrations/kubernetes/controller/volumes.go created can be used for.
use btrfs_nfs_csi.Base.{
  ℕ, ◌≡◌, ◌≢◌, refl, sym, ◌∙◌, ◌^◌, false, ◌||◌, [], Option, none, some, Bytes, ◌=b◌, eq_iff,
  lookup, insert, lookup-insert, arith, Bool-cases, Option-cases, inl, inr,
}
use btrfs_nfs_csi.Validate.{Labels}
use btrfs_nfs_csi.Storage.Model.{label_at}
use btrfs_nfs_csi.Client.{Response, response, conflict, request_error}
use btrfs_nfs_csi.Csi.Ids.{parse_volume_id, make_volume_id}
use btrfs_nfs_csi.Csi.Params.{VolumeParams, pvc_name_key, pvc_namespace_key}
use btrfs_nfs_csi.Csi.Tracker.{Client, Tracker, Reply, ok, refused, param_agent_url}
use btrfs_nfs_csi.Csi.Controller.{
  created, cloned, made, provision, with_params, with_client, create_volume,
}
use btrfs_nfs_csi.Csi.Requests.{
  Agents, VolumeDetail, CreateVolumeRequest, CreatedVolume, ContentSource, no_source, from_volume,
  from_snapshot, unsupported, requested_size, volume_context, copy_param, param_nfs_server,
  param_nfs_share_path, param_nfs_mount_options,
}

-- What a reply that is not refused holds, given the request.
pub record Usable (req : CreateVolumeRequest) (v : CreatedVolume) : Type 0 where
  pub sc : Bytes
  pub named : v.volume_id ≡ make_volume_id sc req.name
  pub class_named : sc ≢ []
  pub request_named : req.name ≢ []
  pub capacity : v.capacity_bytes ≡ requested_size (2 ^ 30) req.capacity_range
  pub server_kept :
      label_at v.volume_context param_nfs_server ≡ label_at req.parameters param_nfs_server
  pub server_named : label_at v.volume_context param_nfs_server ≢ []

abbrev pub Answered : CreateVolumeRequest → Reply CreatedVolume → Type 0
Answered req (ok v) = Usable req v
Answered req (refused code) = Unit

-- A key that another insertion leaves alone.
label_at-insert :
    (k j v : Bytes) (m : Labels) → (k =b j) ≡ false → label_at (insert k v m) j ≡ label_at m j
unfolding label_at
label_at-insert k j v m ne = rw (lookup-insert k j v m, label_at, ne) refl

copy_param-label_at :
    (key j : Bytes) (params m : Labels)
    → (key =b j) ≡ false
    → label_at (copy_param key params m) j ≡ label_at m j
unfolding copy_param
copy_param-label_at key j params m ne = elim (Bool-cases (label_at params key =b [])) [
  | inl e ↦ rw e refl
  | inr e ↦ rw e (label_at-insert key j (label_at params key) m ne)
]

server_in_context :
    (params : Labels)
    → label_at (volume_context params) param_nfs_server ≡ label_at params param_nfs_server
unfolding volume_context copy_param ◌=b◌ label_at lookup
server_in_context params =
    copy_param-label_at pvc_namespace_key param_nfs_server params _ refl
    ∙ copy_param-label_at pvc_name_key param_nfs_server params _ refl
    ∙ copy_param-label_at param_nfs_mount_options param_nfs_server params _ refl

ne_of : (s : Bytes) → (s =b []) ≡ false → s ≢ []
ne_of s h e = absurd (ground (arith, h, (eq_iff s []).1 e))

module _ (A : Agents) (req : CreateVolumeRequest) where
  abbrev size : ℕ
  size = requested_size (2 ^ 30) req.capacity_range

  -- What was checked before an agent is asked.
  module _ (named : req.name ≢ []) (server : label_at req.parameters param_nfs_server ≢ []) where
    created-Usable :
        (sc : Bytes) (d : VolumeDetail)
        → sc ≢ []
        → Usable req (created A sc req.name size (volume_context req.parameters) d)
    unfolding created ◌=b◌
    created-Usable sc d class =
        let kept =
          label_at-insert param_nfs_share_path param_nfs_server d.path
            (volume_context req.parameters) refl
          ∙ server_in_context req.parameters in
        record {
          sc = sc;
          named = refl;
          class_named = class;
          request_named = named;
          capacity = refl;
          server_kept = kept;
          server_named = λ e. server (sym kept ∙ e);
        }

    made-Answered :
        (sc : Bytes) (r : Response VolumeDetail) (w : A.World)
        → sc ≢ []
        → Answered req (made A sc req.name size (volume_context req.parameters) (r, w)).0
    unfolding made
    made-Answered sc (response d) w class = created-Usable sc d class
    made-Answered sc (conflict d) w class = created-Usable sc d class
    made-Answered sc (request_error e) w class = tt

    cloned-Answered :
        (c : Client) (sc : Bytes) (r : Response VolumeDetail) (w : A.World)
        → sc ≢ []
        → Answered req (cloned A c sc req.name size (volume_context req.parameters) (r, w)).0
    unfolding cloned
    cloned-Answered c sc (response d) w class = created-Usable sc d class
    cloned-Answered c sc (conflict d) w class = created-Usable sc d class
    cloned-Answered c sc (request_error e) w class = tt

    provision-Answered :
        (c : Client) (vp : VolumeParams) (source : ContentSource) (w : A.World)
        → vp.storage_class ≢ []
        → Answered req (provision A c vp req.name size (volume_context req.parameters) source w).0
    unfolding provision
    provision-Answered c vp no_source w class = made-Answered vp.storage_class _ _ class
    provision-Answered c vp unsupported w class = tt
    provision-Answered c vp (from_volume id) w class = elim (Option-cases (parse_volume_id id)) [
      | inl e ↦ rw (provision, e) tt
      | inr (p, e) ↦ rw (provision, e) (cloned-Answered c vp.storage_class _ _ class)
    ]
    provision-Answered c vp (from_snapshot id) w class = elim (Option-cases (parse_volume_id id)) [
      | inl e ↦ rw (provision, e) tt
      | inr (p, e) ↦ rw (provision, e) (cloned-Answered c vp.storage_class _ _ class)
    ]

    with_params-Answered :
        (c : Client) (vp : Option VolumeParams) (w : A.World)
        → Answered req (with_params A c req vp w).0
    unfolding with_params
    with_params-Answered c none w = tt
    with_params-Answered c (some vp) w = elim (Bool-cases (vp.storage_class =b [])) [
      | inl e ↦ rw e tt
      | inr e ↦ rw e (provision-Answered c vp req.source w (ne_of vp.storage_class e))
    ]

    with_client-Answered :
        (resolve : Labels → Option VolumeParams) (r : Reply Client) (t : Tracker) (w : A.World)
        → Answered req (with_client A resolve req r (t, w)).0
    unfolding with_client
    with_client-Answered resolve (refused code) t w = tt
    with_client-Answered resolve (ok c) t w = with_params-Answered c (resolve req.parameters) w

  -- A volume that CreateVolume answers with is the requested one in a storage class: its id is made
  -- of the two, neither of which is empty, its capacity is the requested size, and its context names
  -- the NFS server of the parameters, without which no node stages it. So for an empty volume, a
  -- clone and a volume that was there, whatever the agent does.
  pub create_volume-Answered :
      (resolve : Labels → Option VolumeParams) (t : Tracker) (w : A.World)
      → Answered req (create_volume A resolve req (t, w)).0
  unfolding create_volume
  create_volume-Answered resolve t w = elim (Bool-cases (req.name =b [])) [
    | inl e ↦ rw e tt
    | inr e ↦
        elim (Bool-cases (
          label_at req.parameters param_nfs_server =b []
          || label_at req.parameters param_agent_url =b [])) [
            | inl f ↦ rw (e, f) tt
            | inr f ↦
                rw (e, f)
                  (with_client-Answered (ne_of req.name e)
                    (ne_of (label_at req.parameters param_nfs_server) (ground (arith, f))) resolve _
                    t w)
          ]
  ]
