-- ===== src/Reconciler/Tests.antt =====
-- An exporter in memory, on which the theorems on the reconciler run.
use btrfs_nfs_csi.Base.{
  ◌≡◌, refl, ap, sym, inl, inr, ◌∙◌, ◌≢◌, Bool, true, not, ◌&&◌, List, [], ◌∷◌, filter, All, some,
  Bytes, codes, Dict, ◌=b◌, eq_iff, eq_ne, Bool-cases, if◌then◌else◌, arith, has_prefix, cut,
}
use btrfs_nfs_csi.Storage.Model.{VolumeMetadata, seen_ips}
use btrfs_nfs_csi.Storage.Meta.{entries_of, key, dir}
use btrfs_nfs_csi.Storage.Samples.{db, tenant, cfg}
use btrfs_nfs_csi.Nfs.{ExportInfo, Exporter, is_entry, lists, IsExporter}
use btrfs_nfs_csi.Reconciler.{
  reconcile_exports, reconcile_with, path_text, volume_dir, unique_export_ips, reconcile_listed,
  remove_orphans, restore_volumes, restore_clients, path_keys, tenant_exports,
}
use btrfs_nfs_csi.Reconciler.Synced.{NeverFails, reconcile_exports_settles}

abbrev Table : Type 0
Table = List ExportInfo

abbrev memory_exporter : Exporter
memory_exporter = record {
  State = Table;
  add = λ path client s. (true, record { path = path; client = client } ∷ s);
  unexport = λ path client s. (
    true,
    if client =b []
        then filter (λ e. not (path =b e.path)) s
        else filter (λ e. not (path =b e.path && client =b e.client)) s,
  );
  list_exports = λ s. (some s, s);
}

lists-filter :
    (keep : Bytes → Bytes → Bool) (p c : Bytes) (s : Table)
    → lists p c (filter (λ e. keep e.path e.client) s) ≡ keep p c && lists p c s
lists-filter keep p c [] = ground arith
lists-filter keep p c (e ∷ s) =
    let ih = lists-filter keep p c s in
    elim (Bool-cases (is_entry p c e)) [
      | inl t ↦
          let same =
            ap (λ a. keep a e.client) ((eq_iff e.path p).0 (ground (arith, t)))
            ∙ ap (λ b. keep p b) ((eq_iff e.client c).0 (ground (arith, t))) in
          ground (arith, ih, t, same)
      | inr f ↦ ground (arith, ih, f)
    ]

-- Any path, and any client that is not the empty text.
abbrev AnyPath : Bytes → Type 0
AnyPath p = Unit

abbrev IsNamed : Bytes → Type 0
IsNamed c = c ≢ []

All-paths : (s : Table) → All (λ e. AnyPath e.path) s
All-paths [] = tt
All-paths (e ∷ s) = (tt, All-paths s)

memory_view : IsExporter memory_exporter AnyPath IsNamed
unfolding ◌=b◌
memory_view = record {
  exported = λ s p c. lists p c s;
  exported-list_exports =
      λ s entries p c h. let q : s ≡ entries = cc in (ap (λ l. lists p c l) (sym q), refl);
  list_exports-IsPath = λ s entries h. All-paths entries;
  exported-add = λ s path client p c a b h. refl;
  exported-unexport = λ s path client p c a b h.
      rw (eq_ne client [] b) (lists-filter (λ q d. not (path =b q && client =b d)) p c s);
  exported-unexport_all = λ s path p c a h. lists-filter (λ q d. not (path =b q)) p c s;
}

memory_works : NeverFails memory_exporter
memory_works = record {
  lists_always = λ s. (s, refl);
  adds_always = λ s path client. refl;
  removes_always = λ s path client. refl;
}

abbrev attached : VolumeMetadata
attached = record db {
  exports = record { ip = codes "10.0.0.1"; labels = []; created_at = 1 } ∷ [];
}

abbrev cache : Dict VolumeMetadata
cache = (key tenant (codes "db"), attached) ∷ []

abbrev db_only : Bytes → Bool
db_only p = p =b codes "/srv/default/db"

-- An export of a volume that is gone.
abbrev stale : Table
stale = record { path = codes "/srv/default/old"; client = codes "10.0.0.9" } ∷ []

cached-exportable :
    All
      (λ (name, v).
        AnyPath (volume_dir cfg.base_path tenant name) × All IsNamed (unique_export_ips v.exports))
      (entries_of tenant cache)
unfolding entries_of key cut ◌=b◌ unique_export_ips seen_ips
cached-exportable = ((tt, ((λ p. absurd (cc)), tt)), tt)

cached-exist :
    All
      (λ (name, v). db_only (volume_dir cfg.base_path tenant name) ≡ true)
      (entries_of tenant cache)
unfolding entries_of key cut ◌=b◌ path_text dir
cached-exist = (refl, tt)

-- The stale export goes, and the missing one comes back.
reconcile_runs :
    reconcile_exports memory_exporter db_only cfg.base_path tenant cache stale
    ≡ (some (1, 1), record { path = codes "/srv/default/db"; client = codes "10.0.0.1" } ∷ [])
unfolding reconcile_with reconcile_listed remove_orphans restore_volumes restore_clients path_keys
    tenant_exports entries_of key cut ◌=b◌ path_text dir has_prefix unique_export_ips seen_ips
reconcile_runs = refl

abbrev db_dir : Bytes
db_dir = codes "/srv/default/db"

abbrev one_pass : Table → Table
one_pass s = (reconcile_exports memory_exporter db_only cfg.base_path tenant cache s).1

reconcile_exports_settles_example :
    lists db_dir (codes "10.0.0.1") (one_pass (one_pass stale))
    ≡ lists db_dir (codes "10.0.0.1") (one_pass stale)
unfolding reconcile_with memory_view
reconcile_exports_settles_example =
    reconcile_exports_settles memory_exporter AnyPath IsNamed memory_view memory_works db_only
      cfg.base_path tenant cache stale cached-exportable cached-exist db_dir (codes "10.0.0.1")
