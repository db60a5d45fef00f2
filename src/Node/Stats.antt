-- ===== src/Node/Stats.antt =====
-- integrations/kubernetes/driver/stats.go: the usage of a volume, from the metadata file that the
-- agent keeps beside the data.
use btrfs_nfs_csi.Base.{
  ℕ, ◌-◌, ◌≤◌, ◌≡◌, Bool, ◌&&◌, ◌||◌, List, [], ◌∷◌, ◌++◌, reverse, Option, none, some, Bytes,
  codes, ◌=b◌, ltb, has_prefix, contains, if◌then◌else◌, arith,
}
use btrfs_nfs_csi.Csi.Ids.{parse_volume_id}

-- strings.HasSuffix
unfoldable pub has_suffix : Bytes → Bytes → Bool
has_suffix s suffix = has_prefix (reverse s) (reverse suffix)

pub record MountPoint : Type 0 where
  pub device : Bytes
  pub path : Bytes
  pub fs_type : Bytes

-- The two tests of the loop.
unfoldable pub is_staging : Bytes → MountPoint → Bool
is_staging name mp =
    (mp.fs_type =b codes "nfs" || mp.fs_type =b codes "nfs4")
    && contains mp.path (codes "globalmount")
    && has_suffix mp.device (b'/' ∷ name)

first_staging : Bytes → List MountPoint → Bytes
first_staging name [] = []
first_staging name (mp ∷ mounts) =
    let rest = first_staging name mounts in if is_staging name mp then mp.path else rest

-- The empty text where nothing is found, or an error is logged.
unfoldable pub find_staging_path : Option (List MountPoint) → Bytes → Bytes
unfolding first_staging
find_staging_path mounts volume_id = elim (parse_volume_id volume_id) [
  | none ↦ []
  | some (_, name) ↦ elim mounts [ none ↦ [] | some l ↦ first_staging name l ]
]

-- The two fields of the file. Numbers below 2 ^ 63 are read as they are.
pub record VolumeStats : Type 0 where
  pub quota_bytes : ℕ
  pub used_bytes : ℕ

pub record Usage : Type 0 where
  pub available : ℕ
  pub total : ℕ
  pub used : ℕ

pub data StatsReply : Type 0 where
  usage : Usage → StatsReply
  invalid_argument not_found internal : StatsReply

-- `avail` is zero where more is used than the quota allows.
unfoldable pub quota_usage : VolumeStats → Usage
quota_usage vs = record {
  available = vs.quota_bytes - vs.used_bytes;
  total = vs.quota_bytes;
  used = vs.used_bytes;
}

-- The file system's numbers, or the error of statfs.
abbrev statfs_response : Option Usage → StatsReply
statfs_response none = internal
statfs_response (some u) = usage u

module _ (read_stats : Bytes → Option VolumeStats) (statfs : Bytes → Option Usage) where
  stats_at : Bytes → Option VolumeStats → StatsReply
  stats_at volume_path none = internal
  stats_at volume_path (some vs) =
      if ltb 0 vs.quota_bytes then usage (quota_usage vs) else statfs_response (statfs volume_path)

  unfoldable pub node_get_volume_stats :
      Option (List MountPoint) → Bytes → Bytes → Bytes → StatsReply
  unfolding stats_at
  node_get_volume_stats mounts volume_id volume_path staging_target_path =
      let staging =
        if staging_target_path =b []
        then find_staging_path mounts volume_id
        else staging_target_path in
      if volume_path =b []
      then invalid_argument
      else if staging =b []
      then not_found
      else stats_at volume_path (read_stats (staging ++ b'/' ∷ codes "metadata.json"))

quota_usage_full :
    (vs : VolumeStats) → vs.quota_bytes ≤ vs.used_bytes → (quota_usage vs).available ≡ 0
unfolding quota_usage
quota_usage_full vs h = omega (arith, h)
