-- ===== src/Storage/Tests.antt =====
-- The theorems on the agent's handlers, applied to a host on which every call succeeds and no
-- metadata file is there.
use btrfs_nfs_csi.Base.{
  ◌≡◌, ◌≢◌, refl, true, not, ◌&&◌, [], ◌∷◌, ◌++◌, none, some, Bytes, codes, lookup, ◌=b◌, eq_iff,
  length, drop, arith, ◌==◌,
}
use btrfs_nfs_csi.Storage.Model.{VolumeMetadata}
use btrfs_nfs_csi.Storage.Volumes.{volume_data, create_volume}
use btrfs_nfs_csi.Storage.Snapshots.{snapshot_data, create_snapshot}
use btrfs_nfs_csi.Storage.Clones.{clone_volume, create_clone}
use btrfs_nfs_csi.Validate.{valid_name, compresses}
use btrfs_nfs_csi.Storage.Model.{exports_for_ip}
use btrfs_nfs_csi.Storage.Host.{snapshots_dir, FilePath, State, remove_all, done, missing}
use btrfs_nfs_csi.Storage.Exec.{ok, ◌>>=◌, when, must}
use btrfs_nfs_csi.Storage.Tenant.{tenant_path}
use btrfs_nfs_csi.Storage.Meta.{
  volumes, snapshots, dir, key, get, write_json_atomic, update, unwritable,
}
use btrfs_nfs_csi.Storage.Access.{delete_volume, found_or}
use btrfs_nfs_csi.Storage.Update.{
  update_volume, check_labels, check_mode, check_fields, apply_update,
}
use btrfs_nfs_csi.Storage.Exports.{add_export, remove_export, overwritten, first_ref, last_ref}
use btrfs_nfs_csi.Storage.References.{first_ref-edge, last_ref-edge, remove_export-others}
use btrfs_nfs_csi.Storage.Layout.{key_injective, latest, delete_volume-snapshots}
use btrfs_nfs_csi.Storage.Refusals.{delete_volume-Refused, delete_export-unwritable}
use btrfs_nfs_csi.Storage.Growth.{Grown, nocow_only, nocow_only-accepted, update_volume-Grown}
use btrfs_nfs_csi.Storage.Orphans.{Settled, made}
use btrfs_nfs_csi.Storage.Orphans.Created.{create_volume-Settled}
use btrfs_nfs_csi.Storage.Orphans.Snapped.{create_snapshot-Settled}
use btrfs_nfs_csi.Storage.Orphans.Cloned.{clone_volume-Settled, create_clone-Settled}
use btrfs_nfs_csi.Storage.Success.{Fulfils, create_volume-Fulfils}
use btrfs_nfs_csi.Storage.Volumes.{volume_of, volume_dir, with_defaults}
use btrfs_nfs_csi.Base.{cut, insert}
use btrfs_nfs_csi.Strconv.{atoi}
use btrfs_nfs_csi.Validate.{
  is_valid_compression, validate_labels, validate_uid, validate_gid, validate_mode,
}
use btrfs_nfs_csi.Storage.Model.{label_at}
use btrfs_nfs_csi.Storage.Labels.{require_immutable_labels}
use btrfs_nfs_csi.Storage.Exec.{locked}
use btrfs_nfs_csi.Storage.Meta.{store}
use btrfs_nfs_csi.Storage.Volumes.{
  validate_create, configure, create_locked, store_or_clean, subvolume_created,
}
use btrfs_nfs_csi.Storage.Model.{VolumeCreateRequest}
use btrfs_nfs_csi.Storage.Refusals.{Refused, create_volume-Refused}
use btrfs_nfs_csi.Storage.Samples.{
  full_disk, cfg, tenant, owned, db, with_db, web_request, hourly_request, copy_request,
  restore_request, node_a, node_b, shared, with_shared, packed, calm, bigger, grown,
}

create_volume-Settled_example :
    Settled
      (create_volume full_disk cfg tenant web_request 7 with_db).0
      (made (volume_data full_disk cfg tenant (codes "web")) with_db)
      (made
        (volume_data full_disk cfg tenant (codes "web"))
        (create_volume full_disk cfg tenant web_request 7 with_db).1)
create_volume-Settled_example =
    create_volume-Settled full_disk cfg tenant (λ t q. refl) web_request 7 with_db

create_snapshot-Settled_example :
    Settled
      (create_snapshot full_disk cfg tenant hourly_request 7 with_db).0
      (made (snapshot_data full_disk cfg tenant (codes "hourly")) with_db)
      (made
        (snapshot_data full_disk cfg tenant (codes "hourly"))
        (create_snapshot full_disk cfg tenant hourly_request 7 with_db).1)
create_snapshot-Settled_example =
    create_snapshot-Settled full_disk cfg tenant (λ t q. refl) hourly_request 7 with_db

clone_volume-Settled_example :
    Settled
      (clone_volume full_disk cfg tenant copy_request 7 with_db).0
      (made (volume_data full_disk cfg tenant (codes "copy")) with_db)
      (made
        (volume_data full_disk cfg tenant (codes "copy"))
        (clone_volume full_disk cfg tenant copy_request 7 with_db).1)
clone_volume-Settled_example =
    clone_volume-Settled full_disk cfg tenant (λ t q. refl) copy_request 7 with_db

create_clone-Settled_example :
    Settled
      (create_clone full_disk cfg tenant restore_request 7 with_db).0
      (made (volume_data full_disk cfg tenant (codes "restored")) with_db)
      (made
        (volume_data full_disk cfg tenant (codes "restored"))
        (create_clone full_disk cfg tenant restore_request 7 with_db).1)
create_clone-Settled_example =
    create_clone-Settled full_disk cfg tenant (λ t q. refl) restore_request 7 with_db

shared_is_cached : lookup (key tenant (codes "db")) with_shared.volumes ≡ some shared
unfolding lookup key ◌=b◌
shared_is_cached = refl

first_ref-edge_example : first_ref node_a owned shared ≡ (
    (exports_for_ip shared.exports node_a == 0)
    && not (exports_for_ip (add_export node_a owned 9 shared).exports node_a == 0))
first_ref-edge_example = first_ref-edge node_a owned 9 shared

last_ref-edge_example : last_ref node_a none shared ≡ (
    not (exports_for_ip shared.exports node_a == 0)
    && (exports_for_ip (remove_export node_a none 9 shared).exports node_a == 0))
last_ref-edge_example = last_ref-edge node_a none 9 shared

nodes_differ : node_a ≢ node_b
unfolding ◌=b◌
nodes_differ e =
    let same : (node_a =b node_b) ≡ true = (eq_iff node_a node_b).1 e in absurd (cc (same))

remove_export-others_run :
    exports_for_ip (remove_export node_a none 9 shared).exports node_b
    ≡ exports_for_ip shared.exports node_b
remove_export-others_run = remove_export-others node_a node_b none 9 shared nodes_differ

tenant_is_valid : valid_name tenant ≡ true
unfolding valid_name
tenant_is_valid = refl

key_injective_example : (tenant ≡ tenant) × (codes "db" ≡ codes "db")
key_injective_example =
    key_injective tenant tenant (codes "db") (codes "db") tenant_is_valid tenant_is_valid refl

abbrev with_odd_name : State
with_odd_name = record with_db { volumes = (codes "default/snapshots", db) ∷ [] }

odd_name_is_cached : lookup (key tenant snapshots_dir) with_odd_name.volumes ≡ some db
unfolding lookup key ◌=b◌
odd_name_is_cached = refl

delete_volume-snapshots_example :
    (let r = delete_volume calm cfg tenant snapshots_dir with_odd_name in
      (p : FilePath) × (r.0 ≡ ok tt)
      × (latest r.1.trace ≡ some (remove_all p, done))
      × ((name : Bytes) → dir cfg.base_path snapshots tenant name ≡ p ++ name ∷ []))
delete_volume-snapshots_example =
    delete_volume-snapshots (λ t p. missing) (λ t p. missing) cfg tenant db with_odd_name
      tenant_is_valid odd_name_is_cached refl

abbrev somewhere : FilePath
somewhere = volume_data full_disk cfg tenant (codes "db")

delete_volume-Refused_example :
    Refused tenant
      (codes "db")
      shared
      somewhere
      with_shared
      (delete_volume full_disk cfg tenant (codes "db") with_shared)
delete_volume-Refused_example =
    delete_volume-Refused full_disk cfg tenant (codes "db") shared with_shared shared_is_cached
      (omega arith) somewhere

delete_export-unwritable_example :
    ((update full_disk cfg.base_path volumes tenant
        (codes "db")
        (remove_export node_a none 9)
        (overwritten node_a none)
        with_shared).0
      ≡ ok unwritable)
    × ((w : VolumeMetadata) × (lookup
            (key tenant (codes "db"))
            (update full_disk cfg.base_path volumes tenant
              (codes "db")
              (remove_export node_a none 9)
              (overwritten node_a none)
              with_shared).1.volumes
          ≡ some w)
        × (w.exports
            ≡ (remove_export node_a none 9 shared).exports
              ++ drop (length (remove_export node_a none 9 shared).exports) shared.exports))
delete_export-unwritable_example =
    delete_export-unwritable full_disk cfg.base_path tenant (codes "db") node_a none 9 shared
      with_shared (λ t p d. refl) shared_is_cached

db_is_valid : valid_name (codes "db") ≡ true
unfolding valid_name
db_is_valid = refl

abbrev with_packed : State
with_packed = record with_db { volumes = (codes "default/db", packed) ∷ [] }

packed_is_cached : lookup (key tenant (codes "db")) with_packed.volumes ≡ some packed
unfolding lookup key ◌=b◌
packed_is_cached = refl

packed_compresses : compresses packed.compression ≡ true
unfolding compresses ◌=b◌
packed_compresses = refl

nocow_only-accepted_example :
    (v : VolumeMetadata) × ((update_volume calm cfg tenant (codes "db") nocow_only 9 with_packed).0
      ≡ ok v)
    × (v.nocow ≡ true)
    × (compresses v.compression ≡ true)
nocow_only-accepted_example =
    nocow_only-accepted (λ t p. missing) (λ t p. missing) cfg tenant (codes "db") packed 9
      with_packed tenant_is_valid db_is_valid packed_is_cached refl packed_compresses

db_is_cached : lookup (key tenant (codes "db")) with_db.volumes ≡ some db
unfolding lookup key ◌=b◌
db_is_cached = refl

grows : (update_volume calm cfg tenant (codes "db") bigger 9 with_db).0 ≡ ok grown
unfolding update_volume ◌>>=◌ tenant_path valid_name get lookup ◌=b◌ key found_or check_labels
    check_fields check_mode when must update write_json_atomic apply_update
grows = refl

update_volume-Grown_example : Grown db grown
update_volume-Grown_example =
    update_volume-Grown calm cfg tenant (codes "db") bigger 9 db grown with_db db_is_cached grows

abbrev web : VolumeMetadata
web = volume_of (volume_dir calm cfg tenant (codes "web")) (with_defaults cfg web_request) 7

web_is_made : (create_volume calm cfg tenant web_request 7 with_db).0 ≡ ok web
unfolding create_volume ◌>>=◌ tenant_path valid_name validate_create is_valid_compression ◌=b◌ cut
    lookup atoi validate_labels require_immutable_labels label_at validate_uid validate_gid
    validate_mode locked get insert must when key store write_json_atomic configure create_locked
    store_or_clean subvolume_created compresses
web_is_made = refl

create_volume-Fulfils_example :
    Fulfils web_request web
    × (lookup (key tenant web.name) (create_volume calm cfg tenant web_request 7 with_db).1.volumes
        ≡ some web)
create_volume-Fulfils_example =
    create_volume-Fulfils calm cfg tenant web_request 7 web with_db web_is_made

abbrev db_request : VolumeCreateRequest
db_request = record web_request { name = codes "db" }

create_volume-Refused_example :
    Refused tenant
      (codes "db")
      db
      somewhere
      with_db
      (create_volume calm cfg tenant db_request 7 with_db)
create_volume-Refused_example =
    create_volume-Refused calm cfg tenant db_request 7 db with_db db_is_cached somewhere
