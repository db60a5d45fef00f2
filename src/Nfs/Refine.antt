-- ===== src/Nfs/Refine.antt =====
-- The exporter of agent/storage/nfs/kernel.go keeps to the interface of exporter.go, over a tool
-- that behaves as exportfs is documented to.
use btrfs_nfs_csi.Base.{
  ◌≡◌, refl, ap, sym, subst, inl, inr, ◌∙◌, Bool, true, not, ◌&&◌, ◌||◌, List, [], ◌∷◌, some, Bytes,
  codes, ◌=b◌, eq_iff, contains, any, All, Bool-cases, Option-cases, arith, eq_ne,
}
use btrfs_nfs_csi.Nfs.{ExportInfo, lists, IsExporter}
use btrfs_nfs_csi.Nfs.Kernel.{
  Runner, target, clients_of, kernel_add, try_unexport, unexport_clients, unexport_listed,
  kernel_list_exports, kernel_unexport, kernel_exporter, parse_exports,
}
use btrfs_nfs_csi.Nfs.Listing.{IsPath, IsClient, parse_exports-print_listing}
use btrfs_nfs_csi.Nfs.Tool.{
  infos, IsExportfs, listed-IsPair, target-same, Bool-same, any-clients_of, clients_of-IsClient,
  infos-IsPath,
}

module _ (R : Runner) (bin opts : Bytes) (tool : IsExportfs R bin) where
  abbrev holds : R.World → Bytes → Bytes → Bool
  holds w p c = lists p c (infos (tool.table w))

  -- The addition of a target, in terms of its path and its client.
  adds_pair :
      (w : R.World) (options path client p c : Bytes)
      → IsPath path
      → IsClient client
      → (R.run bin (codes "-o" ∷ options ∷ target path client ∷ []) w).0.1 ≡ true
      → holds (R.run bin (codes "-o" ∷ options ∷ target path client ∷ []) w).1 p c
        ≡ (path =b p && client =b c) || holds w p c
  adds_pair w options path client p c abs addr ok =
      let next = (R.run bin (codes "-o" ∷ options ∷ target path client ∷ []) w).1 in
      let law : (abs' : IsPath p) (addr' : IsClient c)
          → holds next p c ≡ (path =b p && client =b c) || holds w p c =
        λ abs' addr'.
          tool.adds w options (target path client) p c abs' addr' ok
          ∙ ap (λ b. b || holds w p c) (target-same path client p c abs addr abs' addr') in
      Bool-same (holds next p c) ((path =b p && client =b c) || holds w p c)
        (λ found.
          let (abs', addr') =
            listed-IsPair p c (tool.table next) (tool.table-IsListed next) found in
          sym (law abs' addr') ∙ found)
        (λ found. elim (Bool-cases (path =b p && client =b c)) [
          | inl here ↦
              law (subst IsPath ((eq_iff path p).0 (ground (arith, here))) abs)
                (subst IsClient ((eq_iff client c).0 (ground (arith, here))) addr)
              ∙ found
          | inr other ↦
              let (abs', addr') =
                listed-IsPair p c (tool.table w) (tool.table-IsListed w)
                  (ground (arith, found, other)) in
              law abs' addr' ∙ found
        ])

  -- The removal of a target, in terms of its path and its client.
  removes_pair :
      (w : R.World) (path client p c : Bytes)
      → IsPath path
      → IsClient client
      → (let r = R.run bin (codes "-u" ∷ target path client ∷ []) w in
          r.0.1 || contains r.0.0 (codes "Could not find"))
        ≡ true
      → holds (R.run bin (codes "-u" ∷ target path client ∷ []) w).1 p c
        ≡ not (path =b p && client =b c) && holds w p c
  removes_pair w path client p c abs addr ok =
      let next = (R.run bin (codes "-u" ∷ target path client ∷ []) w).1 in
      let law : (abs' : IsPath p) (addr' : IsClient c)
          → holds next p c ≡ not (path =b p && client =b c) && holds w p c =
        λ abs' addr'.
          tool.removes w (target path client) p c abs' addr' ok
          ∙ ap (λ b. not b && holds w p c) (target-same path client p c abs addr abs' addr') in
      Bool-same (holds next p c) (not (path =b p && client =b c) && holds w p c)
        (λ found.
          let (abs', addr') =
            listed-IsPair p c (tool.table next) (tool.table-IsListed next) found in
          sym (law abs' addr') ∙ found)
        (λ found.
          let (abs', addr') =
            listed-IsPair p c (tool.table w) (tool.table-IsListed w) (ground (arith, found)) in
          law abs' addr' ∙ found)

  unexport_clients-holds :
      (path p c : Bytes) (clients : List Bytes) (fine : Bool) (w : R.World)
      → IsPath path
      → All IsClient clients
      → (unexport_clients R bin opts path clients fine w).0 ≡ true
      → (fine ≡ true)
        × (holds (unexport_clients R bin opts path clients fine w).1 p c
            ≡ not (path =b p && any (λ d. d =b c) clients) && holds w p c)
  unfolding unexport_clients try_unexport
  unexport_clients-holds path p c [] fine w abs h done = (done, ground arith)
  unexport_clients-holds path p c (d ∷ clients) fine w abs h done =
      let r = try_unexport R bin opts path d w in
      let rest = unexport_clients-holds path p c clients (fine && r.0) r.1 abs h.1 done in
      let one = removes_pair w path d p c abs h.0 (ground (arith, rest.0)) in
      (ground (arith, rest.0), ground (arith, rest.1, one))

  entries-table :
      (w : R.World) (entries : List ExportInfo)
      → (kernel_list_exports R bin opts w).0 ≡ some entries
      → entries ≡ infos (tool.table w)
  unfolding kernel_list_exports
  entries-table w entries h = elim (Bool-cases (R.run bin (codes "-v" ∷ []) w).0.1) [
    | inl ran ↦
        let read =
          ap parse_exports (tool.prints w ran)
          ∙ parse_exports-print_listing (tool.table w) (tool.table-IsListed w) in
        ground (arith, h, ran, read)
    | inr failed ↦ absurd (ground (arith, h, failed))
  ]

  list_keeps :
      (w : R.World) (p c : Bytes) → holds (kernel_list_exports R bin opts w).1 p c ≡ holds w p c
  unfolding kernel_list_exports
  list_keeps w p c = tool.prints_only w p c

  listed_gone :
      (w : R.World) (entries : List ExportInfo) (path p c : Bytes)
      → IsPath path
      → entries ≡ infos (tool.table w)
      → (v : R.World) → ((a b : Bytes) → holds v a b ≡ holds w a b)
      → (unexport_clients R bin opts path (clients_of path entries) true v).0 ≡ true
      → holds (unexport_clients R bin opts path (clients_of path entries) true v).1 p c
        ≡ not (path =b p) && holds w p c
  listed_gone w entries path p c abs whole v same done =
      let all_clients : All IsClient (clients_of path entries) =
        rw whole (clients_of-IsClient path (tool.table w) (tool.table-IsListed w)) in
      let gone =
        unexport_clients-holds path p c (clients_of path entries) true v abs all_clients done in
      let found : any (λ d. d =b c) (clients_of path entries) ≡ holds w path c =
        any-clients_of path c entries ∙ ap (λ l. lists path c l) whole in
      gone.1
      ∙ gone_in path p c (any (λ d. d =b c) (clients_of path entries)) (holds v p c) found
          (same p c)
    where
      gone_in :
          (path p c : Bytes) (found kept : Bool)
          → found ≡ holds w path c
          → kept ≡ holds w p c
          → (not (path =b p && found) && kept) ≡ (not (path =b p) && holds w p c)
      gone_in path p c found kept e k = elim (Bool-cases (path =b p)) [
        | inl t ↦
            let q = ap (λ a. holds w a c) ((eq_iff path p).0 t) in rw (t, e, k, q) (ground arith)
        | inr f ↦ rw (f, k) refl
      ]

  all_gone :
      (w : R.World) (path p c : Bytes)
      → IsPath path
      → (unexport_listed R bin opts path
          (kernel_list_exports R bin opts w).0
          (kernel_list_exports R bin opts w).1).0
        ≡ true
      → holds
          (unexport_listed R bin opts path
            (kernel_list_exports R bin opts w).0
            (kernel_list_exports R bin opts w).1).1
          p
          c
        ≡ not (path =b p) && holds w p c
  unfolding unexport_listed
  all_gone w path p c abs done = elim (Option-cases (kernel_list_exports R bin opts w).0) [
    | inl e ↦ absurd (ground (arith, done, e))
    | inr (entries, e) ↦ rw e (
        listed_gone w entries path p c abs (entries-table w entries e)
          (kernel_list_exports R bin opts w).1 (list_keeps w) (rw e at done))
  ]

  one_gone :
      (w : R.World) (path client p c : Bytes)
      → IsPath path
      → IsClient client
      → (kernel_unexport R bin opts path client w).0 ≡ true
      → holds (kernel_unexport R bin opts path client w).1 p c
        ≡ not (path =b p && client =b c) && holds w p c
  unfolding kernel_unexport try_unexport
  one_gone w path client p c abs addr ok =
      let named = eq_ne client [] addr.filled in
      rw named (removes_pair w path client p c abs addr (rw named at ok))

  -- The exporter that runs exportfs refines the abstract set of exports: its listing is the set,
  -- adding an entry adds it and nothing else, and taking away one client, or all of a path, takes
  -- away these and nothing else, wherever no error comes back. The texts are absolute paths and
  -- addresses, and the tool behaves as documented.
  pub kernel_exporter-IsExporter : IsExporter (kernel_exporter R bin opts) IsPath IsClient
  unfolding kernel_add kernel_unexport ◌=b◌
  kernel_exporter-IsExporter = record {
    exported = holds;
    exported-list_exports =
        λ w entries p c h. (ap (λ l. lists p c l) (entries-table w entries h), list_keeps w p c);
    list_exports-IsPath = λ w entries h.
        rw (entries-table w entries h) (infos-IsPath (tool.table w) (tool.table-IsListed w));
    exported-add = λ w path client p c abs addr ok. adds_pair w _ path client p c abs addr ok;
    exported-unexport = λ w path client p c abs addr ok. one_gone w path client p c abs addr ok;
    exported-unexport_all = λ w path p c abs ok. all_gone w path p c abs ok;
  }
