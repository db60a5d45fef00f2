-- ===== src/Csi/Params/Accepted.antt =====
-- The parameters that integrations/kubernetes/controller/pvc.go resolves pass the checks that the
-- agent makes.
use btrfs_nfs_csi.Base.{
  ◌≡◌, codes, not, ◌&&◌, ◌||◌, ◌++◌, subst, refl, ap, Bool, true, false, List, [], ◌∷◌, Option,
  none, some, Bytes, ◌=b◌, lookup, is_none, if◌then◌else◌, arith, Bool-cases, Option-cases, inl,
  inr,
}
use btrfs_nfs_csi.Base.Int.{ℤ}
use btrfs_nfs_csi.Strconv.{atoi}
use btrfs_nfs_csi.Validate.{Labels, is_valid_compression, validate_uid, validate_gid, validate_mode}
use btrfs_nfs_csi.Storage.Model.{VolumeUpdateRequest, label_at}
use btrfs_nfs_csi.Csi.Params.{
  and_then, apply_annotation, anno_prefix, pvc_name_key, pvc_namespace_key, Claim, VolumeParams,
  no_update, apply_nocow, apply_compression, checked_uid, apply_uid, checked_gid, apply_gid,
  apply_mode, apply_string_params, apply_annotations, annotated_keys, resolve_claim, resolve_named,
  resolve_volume_params,
}

abbrev pub Passes : {A : Type 0} → (A → Bool) → Option A → Type 0
Passes test none = Unit
Passes test (some a) = test a ≡ true

-- Each field that is set passes its test.
pub record IsAccepted (u : VolumeUpdateRequest) : Type 0 where
  pub compression_valid : Passes is_valid_compression u.compression
  pub uid_valid : Passes validate_uid u.uid
  pub gid_valid : Passes validate_gid u.gid
  pub mode_valid : Passes (λ m. if is_none (validate_mode m) then false else true) u.mode

abbrev Keeps : (VolumeUpdateRequest → Option VolumeUpdateRequest) → Type 0
Keeps f = (u w : VolumeUpdateRequest) → IsAccepted u → f u ≡ some w → IsAccepted w

some-injective : (u w : VolumeUpdateRequest) → some u ≡ some w → u ≡ w
some-injective u w h = ap from_some h
  where
    from_some : Option VolumeUpdateRequest → VolumeUpdateRequest
    from_some none = u
    from_some (some x) = x

-- An error sets nothing, and what is set is accepted.
set_to : (u w : VolumeUpdateRequest) → IsAccepted u → some u ≡ some w → IsAccepted w
set_to u w ok h = subst IsAccepted (some-injective u w h) ok

apply_nocow-Keeps : (v : Bytes) → Keeps (apply_nocow v)
unfolding apply_nocow
apply_nocow-Keeps v u w ok h = elim (Bool-cases (v =b [])) [
  | inl e ↦ set_to u w ok (rw e at h)
  | inr e ↦ elim (Bool-cases (not (v =b codes "true") && not (v =b codes "false"))) [
    | inl f ↦ absurd (ground (arith, h, e, f))
    | inr f ↦
        set_to (record u { nocow = some (v =b codes "true") }) w
          record {
            compression_valid = ok.compression_valid;
            uid_valid = ok.uid_valid;
            gid_valid = ok.gid_valid;
            mode_valid = ok.mode_valid;
          }
          (rw (e, f) at h)
  ]
]

apply_compression-Keeps : (v : Bytes) → Keeps (apply_compression v)
unfolding apply_compression
apply_compression-Keeps v u w ok h = elim (Bool-cases (v =b [])) [
  | inl e ↦ set_to u w ok (rw e at h)
  | inr e ↦ elim (Bool-cases (is_valid_compression v)) [
    | inr f ↦ absurd (ground (arith, h, e, f))
    | inl f ↦
        set_to (record u { compression = some v }) w
          record {
            compression_valid = f;
            uid_valid = ok.uid_valid;
            gid_valid = ok.gid_valid;
            mode_valid = ok.mode_valid;
          }
          (rw (e, f) at h)
  ]
]

checked_uid-Keeps :
    (o : Option ℤ) (u w : VolumeUpdateRequest)
    → IsAccepted u
    → checked_uid u o ≡ some w
    → IsAccepted w
unfolding checked_uid
checked_uid-Keeps none u w ok h = absurd (cc)
checked_uid-Keeps (some uid) u w ok h = elim (Bool-cases (validate_uid uid)) [
  | inr f ↦ absurd (ground (arith, h, f))
  | inl f ↦
      set_to (record u { uid = some uid }) w
        record {
          compression_valid = ok.compression_valid;
          uid_valid = f;
          gid_valid = ok.gid_valid;
          mode_valid = ok.mode_valid;
        }
        (rw f at h)
]

checked_gid-Keeps :
    (o : Option ℤ) (u w : VolumeUpdateRequest)
    → IsAccepted u
    → checked_gid u o ≡ some w
    → IsAccepted w
unfolding checked_gid
checked_gid-Keeps none u w ok h = absurd (cc)
checked_gid-Keeps (some gid) u w ok h = elim (Bool-cases (validate_gid gid)) [
  | inr f ↦ absurd (ground (arith, h, f))
  | inl f ↦
      set_to (record u { gid = some gid }) w
        record {
          compression_valid = ok.compression_valid;
          uid_valid = ok.uid_valid;
          gid_valid = f;
          mode_valid = ok.mode_valid;
        }
        (rw f at h)
]

apply_uid-Keeps : (v : Bytes) → Keeps (apply_uid v)
unfolding apply_uid
apply_uid-Keeps v u w ok h = elim (Bool-cases (v =b [])) [
  | inl e ↦ set_to u w ok (rw e at h)
  | inr e ↦ checked_uid-Keeps (atoi v) u w ok (rw e at h)
]

apply_gid-Keeps : (v : Bytes) → Keeps (apply_gid v)
unfolding apply_gid
apply_gid-Keeps v u w ok h = elim (Bool-cases (v =b [])) [
  | inl e ↦ set_to u w ok (rw e at h)
  | inr e ↦ checked_gid-Keeps (atoi v) u w ok (rw e at h)
]

apply_mode-Keeps : (v : Bytes) → Keeps (apply_mode v)
unfolding apply_mode
apply_mode-Keeps v u w ok h = elim (Bool-cases (v =b [])) [
  | inl e ↦ set_to u w ok (rw e at h)
  | inr e ↦ elim (Bool-cases (is_none (validate_mode v))) [
    | inl f ↦ absurd (ground (arith, h, e, f))
    | inr f ↦
        set_to (record u { mode = some v }) w
          record {
            compression_valid = ok.compression_valid;
            uid_valid = ok.uid_valid;
            gid_valid = ok.gid_valid;
            mode_valid = rw f refl;
          }
          (rw (e, f) at h)
  ]
]

and_then-Keeps :
    (f g : VolumeUpdateRequest → Option VolumeUpdateRequest)
    → Keeps f
    → Keeps g
    → Keeps (λ u. and_then (f u) g)
and_then-Keeps f g kf kg u w ok h = elim (Option-cases (f u)) [
  | inl e ↦ absurd (ground (arith, rw e at h))
  | inr (v, e) ↦ kg v w (kf u v ok e) (rw e at h)
]

apply_string_params-Keeps : (params : Labels) → Keeps (apply_string_params params)
unfolding apply_string_params
apply_string_params-Keeps params = and_then-Keeps (apply_nocow _) _ (apply_nocow-Keeps _) (
    and_then-Keeps (apply_compression _) _ (apply_compression-Keeps _) (
      and_then-Keeps (apply_uid _) _ (apply_uid-Keeps _)
        (and_then-Keeps (apply_gid _) (apply_mode _) (apply_gid-Keeps _) (apply_mode-Keeps _))))

apply_annotation-IsAccepted :
    (key : Bytes) (o : Option Bytes) (u : VolumeUpdateRequest)
    → IsAccepted u
    → IsAccepted (apply_annotation key o u)
unfolding apply_annotation
apply_annotation-IsAccepted key none u ok = ok
apply_annotation-IsAccepted key (some v) u ok =
    elim (Option-cases (apply_string_params ((key, v) ∷ []) u)) [
      | inl e ↦ rw (apply_annotation, e) ok
      | inr (w, e) ↦ rw (apply_annotation, e) (apply_string_params-Keeps ((key, v) ∷ []) u w ok e)
    ]

apply_annotations-IsAccepted :
    (annotations : Labels) (keys : List Bytes) (u : VolumeUpdateRequest)
    → IsAccepted u
    → IsAccepted (apply_annotations annotations keys u)
unfolding apply_annotations
apply_annotations-IsAccepted annotations [] u ok = ok
apply_annotations-IsAccepted annotations (key ∷ keys) u ok =
    apply_annotations-IsAccepted annotations keys _
      (apply_annotation-IsAccepted key (lookup (anno_prefix ++ key) annotations) u ok)

resolve_named-IsAccepted :
    (get_claim : Bytes → Bytes → Option Claim) (defaults : Labels) (identity name ns : Bytes)
    (u : VolumeUpdateRequest)
    → IsAccepted u
    → IsAccepted (resolve_named get_claim defaults identity name ns u).request
unfolding resolve_named resolve_claim
resolve_named-IsAccepted get_claim defaults identity name ns u ok =
    elim (Bool-cases (name =b [] || ns =b [])) [
      | inl e ↦ rw e ok
      | inr e ↦ elim (Option-cases (get_claim ns name)) [
        | inl f ↦ rw (e, f) ok
        | inr (claim, f) ↦
            rw (e, f) (apply_annotations-IsAccepted claim.annotations annotated_keys u ok)
      ]
    ]

abbrev PassesRequest : Option VolumeParams → Type 0
PassesRequest none = Unit
PassesRequest (some vp) = IsAccepted vp.request

-- What is resolved for a volume is accepted by the agent's checks, field by field: the compression,
-- the owner and the mode, from whatever parameters and annotations, and for any claim or none.
pub resolve_volume_params-IsAccepted :
    (get_claim : Bytes → Bytes → Option Claim) (defaults : Labels) (identity : Bytes)
    (params : Labels) (vp : VolumeParams)
    → resolve_volume_params get_claim defaults identity params ≡ some vp
    → IsAccepted vp.request
unfolding resolve_volume_params
resolve_volume_params-IsAccepted get_claim defaults identity params vp h =
    elim (Option-cases (apply_string_params params no_update)) [
      | inl e ↦ absurd (ground (arith, rw (resolve_volume_params, e) at h))
      | inr (u, e) ↦
          let ok =
            apply_string_params-Keeps params no_update u
              record { compression_valid = tt; uid_valid = tt; gid_valid = tt; mode_valid = tt }
              e in
          let all =
            resolve_named-IsAccepted get_claim defaults identity (label_at params pvc_name_key)
              (label_at params pvc_namespace_key) u ok in
          subst (λ r. PassesRequest r) (rw (resolve_volume_params, e) at h) all
    ]
