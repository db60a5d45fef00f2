-- ===== src/Reconciler/Synced.antt =====
-- A pass of the reconciler in agent/storage/reconciler.go, in the abstract view of the exporter.
use btrfs_nfs_csi.Base.{
  ℕ, ◌≡◌, refl, ap, sym, ◌∙◌, ◌⊎◌, inl, inr, Bool, true, false, not, ◌&&◌, ◌||◌, List, [], ◌∷◌,
  ◌++◌, any, All, some, Bytes, Dict, ◌=b◌, eq_iff, Bool-cases, if◌then◌else◌, arith,
}
use btrfs_nfs_csi.Storage.Model.{VolumeMetadata}
use btrfs_nfs_csi.Storage.Host.{FilePath}
use btrfs_nfs_csi.Storage.Meta.{entries_of}
use btrfs_nfs_csi.Nfs.{ExportInfo, Exporter, lists, IsExporter}
use btrfs_nfs_csi.Reconciler.{
  unique_export_ips, tenant_exports, path_keys, remove_orphans, restore_clients, restore_volumes,
  reconcile_listed, reconcile_with, reconcile_exports, path_text, volume_dir,
}
use btrfs_nfs_csi.Reconciler.Keys.{
  has, has_ip, has-unique_export_ips, has_path, has-path_keys, is_below, lists-tenant_exports,
  has_path-tenant_exports, All-tenant_exports, All-path_keys,
}

-- A volume of the list is exported to the client at the path.
abbrev pub wanted : (Bytes → Bytes) → List (Bytes × VolumeMetadata) → Bytes → Bytes → Bool
wanted dir_of cached p c = any (λ (name, v). dir_of name =b p && has_ip c v.exports) cached

-- No call of the exporter fails.
pub record NeverFails (E : Exporter) : Type 0 where
  pub lists_always :
      (s : E.State) → (entries : List ExportInfo) × ((E.list_exports s).0 ≡ some entries)
  pub adds_always : (s : E.State) (path client : Bytes) → (E.add path client s).0 ≡ true
  pub removes_always : (s : E.State) (path client : Bytes) → (E.unexport path client s).0 ≡ true

-- A value that depends on the text alone, under a test of the text.
at_equal : (f : Bytes → Bool) (q p : Bytes) → (q =b p) ≡ true → f p ≡ f q
at_equal f q p t = ap f (sym ((eq_iff q p).0 t))

-- One path in front of the others: found if it is the first, or further on.
orphan-cons :
    (exists : Bytes → Bool) (q p : Bytes) (more now : Bool)
    → (not ((q =b p || more) && not (exists p)) && now)
      ≡ (not (more && not (exists p)) && (if exists q then now else not (q =b p) && now))
orphan-cons exists q p more now = elim (Bool-cases (q =b p)) [
  | inl t ↦ let e = at_equal exists q p t in ground (arith, t, e)
  | inr f ↦ ground (arith, f)
]

-- One client in front of the others, at one directory.
client-cons :
    (actual : List ExportInfo) (dir ip p c : Bytes) (more now : Bool)
    → ((dir =b p && (ip =b c || more) && not (lists p c actual)) || now) ≡ (
        (dir =b p && more && not (lists p c actual))
        || (if lists dir ip actual then now else (dir =b p && ip =b c) || now))
client-cons actual dir ip p c more now = elim (Bool-cases (dir =b p)) [
  | inr f ↦ ground (arith, f)
  | inl t ↦ elim (Bool-cases (ip =b c)) [
    | inr f ↦ ground (arith, t, f)
    | inl u ↦
        let e =
          at_equal (λ q. lists q c actual) dir p t ∙ at_equal (λ d. lists dir d actual) ip c u in
        ground (arith, t, u, e)
  ]
]

settled :
    (before once twice below there want : Bool)
    → once ≡ (if before then not below || there else want)
    → twice ≡ (if once then not below || there else want)
    → (there ≡ true) ⊎ (want ≡ false)
    → twice ≡ once
settled before once twice below there want e f h = ground (arith, e, f, h)

module _ (E : Exporter) (IsPath IsClient : Bytes → Type 0) (view : IsExporter E IsPath IsClient)
    (works : NeverFails E) (exists : Bytes → Bool) where
  exported-remove_orphans :
      (paths : List Bytes) (n : ℕ) (s : E.State) (p c : Bytes)
      → All IsPath paths
      → view.exported (remove_orphans E exists paths n s).1 p c
        ≡ (not (has p paths && not (exists p)) && view.exported s p c)
  unfolding remove_orphans
  exported-remove_orphans [] n s p c h = ground arith
  exported-remove_orphans (q ∷ paths) n s p c h =
      let later = λ (m : ℕ) (t : E.State). exported-remove_orphans paths m t p c h.1 in
      let front = orphan-cons exists q p (has p paths) (view.exported s p c) in
      elim (Bool-cases (exists q)) [
        | inl e ↦ rw (e, remove_orphans) (later n s ∙ sym (rw e at front))
        | inr e ↦
            let gone = view.exported-unexport_all s q p c h.0 (works.removes_always s q []) in
            rw (e, remove_orphans)
              (later _ _
                ∙ ap (λ b. not (has p paths && not (exists p)) && b) gone
                ∙ sym (rw e at front))
      ]

  exported-restore_clients :
      (dir : Bytes) (actual : List ExportInfo) (ips : List Bytes) (n : ℕ) (s : E.State)
      (p c : Bytes)
      → IsPath dir
      → All IsClient ips
      → view.exported (restore_clients E exists dir actual ips n s).1 p c
        ≡ ((dir =b p && has c ips && not (lists p c actual)) || view.exported s p c)
  unfolding restore_clients
  exported-restore_clients dir actual [] n s p c abs h = ground arith
  exported-restore_clients dir actual (ip ∷ ips) n s p c abs h =
      let rest = dir =b p && has c ips && not (lists p c actual) in
      let later =
        λ (m : ℕ) (t : E.State). exported-restore_clients dir actual ips m t p c abs h.1 in
      let front = client-cons actual dir ip p c (has c ips) (view.exported s p c) in
      elim (Bool-cases (lists dir ip actual)) [
        | inl e ↦ rw (e, restore_clients) (later n s ∙ sym (rw e at front))
        | inr e ↦
            let added = view.exported-add s dir ip p c abs h.0 (works.adds_always s dir ip) in
            rw (e, restore_clients) (later _ _ ∙ ap (λ b. rest || b) added ∙ sym (rw e at front))
      ]

  exported-restore_volumes :
      (dir_of : Bytes → Bytes) (actual : List ExportInfo) (cached : List (Bytes × VolumeMetadata))
      (n : ℕ) (s : E.State) (p c : Bytes)
      → All (λ (name, v). IsPath (dir_of name) × All IsClient (unique_export_ips v.exports)) cached
      → view.exported (restore_volumes E exists dir_of actual cached n s).1 p c
        ≡ ((wanted dir_of cached p c && not (lists p c actual)) || view.exported s p c)
  unfolding restore_volumes
  exported-restore_volumes dir_of actual [] n s p c h = ground arith
  exported-restore_volumes dir_of actual ((name, v) ∷ cached) n s p c h =
      let ips = unique_export_ips v.exports in
      let r = restore_clients E exists (dir_of name) actual ips n s in
      let one = exported-restore_clients (dir_of name) actual ips n s p c h.0.0 h.0.1 in
      let later = exported-restore_volumes dir_of actual cached r.0 r.1 p c h.1 in
      let named = has-unique_export_ips c v.exports in ground (arith, one, later, named)

  -- The set of exports behind a pass.
  abbrev pub after_pass :
      Bytes → (Bytes → Bytes) → List (Bytes × VolumeMetadata) → E.State → Bytes → Bytes → Bool
  after_pass td dir_of cached s p c =
      if view.exported s p c then not (is_below td p) || exists p else wanted dir_of cached p c

  -- What the code needs of the cached volumes of a tenant.
  abbrev pub AreExportable : (Bytes → Bytes) → List (Bytes × VolumeMetadata) → Type 0
  AreExportable dir_of cached =
      All (λ (name, v). IsPath (dir_of name) × All IsClient (unique_export_ips v.exports)) cached

  merged :
      (td : Bytes) (entries : List ExportInfo) (p c : Bytes) (want before : Bool)
      → lists p c entries ≡ before
      → ((want && not (lists p c (tenant_exports td entries)))
          || (not (has_path p (tenant_exports td entries) && not (exists p)) && before))
        ≡ (if before then not (is_below td p) || exists p else want)
  merged td entries p c want false e = ground (arith, e, lists-tenant_exports td p c entries)
  merged td entries p c want true e =
      ground
        (arith, e, lists-tenant_exports td p c entries, has_path-tenant_exports td p c entries e)

  exported-reconcile_listed :
      (td : Bytes) (dir_of : Bytes → Bytes) (cached : List (Bytes × VolumeMetadata)) (s : E.State)
      (entries : List ExportInfo) (p c : Bytes)
      → (E.list_exports s).0 ≡ some entries
      → AreExportable dir_of cached
      → view.exported
          (reconcile_listed E exists dir_of cached
            (tenant_exports td entries)
            (E.list_exports s).1).1
          p
          c
        ≡ after_pass td dir_of cached s p c
  unfolding reconcile_listed
  exported-reconcile_listed td dir_of cached s entries p c e ok =
      let actual = tenant_exports td entries in
      let listed =
        All-tenant_exports (λ i. IsPath i.path) td entries (view.list_exports-IsPath s entries e) in
      let paths = All-path_keys IsPath actual [] listed tt in
      let gone = remove_orphans E exists (path_keys actual []) 0 (E.list_exports s).1 in
      let want = wanted dir_of cached p c && not (lists p c actual) in
      let listing = view.exported-list_exports s entries p c e in
      exported-restore_volumes dir_of actual cached 0 gone.1 p c ok
      ∙ ap (λ b. want || b)
          (exported-remove_orphans (path_keys actual []) 0 (E.list_exports s).1 p c paths
            ∙ rw (has-path_keys p actual [], listing.1) refl)
      ∙ merged td entries p c (wanted dir_of cached p c) (view.exported s p c) listing.0

  exported-reconcile_with :
      (td : Bytes) (dir_of : Bytes → Bytes) (cached : List (Bytes × VolumeMetadata)) (s : E.State)
      → AreExportable dir_of cached
      → (p c : Bytes)
      → view.exported (reconcile_with E exists td dir_of cached s).1 p c
        ≡ after_pass td dir_of cached s p c
  unfolding reconcile_with
  exported-reconcile_with td dir_of cached s ok p c =
      let (entries, e) = works.lists_always s in
      rw (reconcile_with, e) (exported-reconcile_listed td dir_of cached s entries p c e ok)

  pub exported-reconcile_exports :
      (base : FilePath) (tenant : Bytes) (cache : Dict VolumeMetadata) (s : E.State)
      → AreExportable (volume_dir base tenant) (entries_of tenant cache)
      → (p c : Bytes)
      → view.exported (reconcile_exports E exists base tenant cache s).1 p c
        ≡ after_pass
            (path_text (base ++ tenant ∷ []))
            (volume_dir base tenant)
            (entries_of tenant cache)
            s
            p
            c
  exported-reconcile_exports base tenant cache s ok =
      exported-reconcile_with (path_text (base ++ tenant ∷ [])) (volume_dir base tenant)
        (entries_of tenant cache) s ok

  abbrev pub AllExist : (Bytes → Bytes) → List (Bytes × VolumeMetadata) → Type 0
  AllExist dir_of cached = All (λ (name, v). exists (dir_of name) ≡ true) cached

  wanted-exists :
      (dir_of : Bytes → Bytes) (cached : List (Bytes × VolumeMetadata)) (p c : Bytes)
      → AllExist dir_of cached
      → wanted dir_of cached p c ≡ true
      → exists p ≡ true
  wanted-exists dir_of [] p c h w = absurd (cc)
  wanted-exists dir_of ((name, v) ∷ cached) p c h w = elim (Bool-cases (dir_of name =b p)) [
    | inl t ↦ at_equal exists (dir_of name) p t ∙ h.0
    | inr f ↦ wanted-exists dir_of cached p c h.1 (rw f at w)
  ]

  -- Where the directories of the cached volumes exist, a second pass changes nothing.
  pub reconcile_exports_settles :
      (base : FilePath) (tenant : Bytes) (cache : Dict VolumeMetadata) (s : E.State)
      → AreExportable (volume_dir base tenant) (entries_of tenant cache)
      → AllExist (volume_dir base tenant) (entries_of tenant cache)
      → (p c : Bytes)
      → (let once = (reconcile_exports E exists base tenant cache s).1 in
          view.exported (reconcile_exports E exists base tenant cache once).1 p c
          ≡ view.exported once p c)
  reconcile_exports_settles base tenant cache s ok there p c =
      let once = (reconcile_exports E exists base tenant cache s).1 in
      let first = exported-reconcile_exports base tenant cache s ok p c in
      let second = exported-reconcile_exports base tenant cache once ok p c in
      let td = path_text (base ++ tenant ∷ []) in
      let want = wanted (volume_dir base tenant) (entries_of tenant cache) p c in
      elim (Bool-cases want) [
        | inl w ↦
            let e = wanted-exists (volume_dir base tenant) (entries_of tenant cache) p c there w in
            settled _ _ _ (is_below td p) (exists p) want first second (inl e)
        | inr w ↦ settled _ _ _ (is_below td p) (exists p) want first second (inr w)
      ]
