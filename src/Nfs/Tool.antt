-- ===== src/Nfs/Tool.antt =====
-- The tool exportfs as documented, whose table agent/storage/nfs/kernel.go reads and changes.
use btrfs_nfs_csi.Base.{
  ◌≡◌, refl, ap, sym, subst, inl, inr, ◌∙◌, Bool, true, false, not, ◌&&◌, ◌||◌, List, [], ◌∷◌,
  Bytes, codes, ◌=b◌, eq_iff, contains, any, map, All, Bool-cases, arith,
}
use btrfs_nfs_csi.Nfs.{ExportInfo, lists}
use btrfs_nfs_csi.Nfs.Kernel.{Runner, target, clients_of}
use btrfs_nfs_csi.Nfs.Targets.{target-injective}
use btrfs_nfs_csi.Nfs.Listing.{Listed, print_listing, IsPath, IsClient, IsListed}

abbrev pub infos : List Listed → List ExportInfo
infos entries = map (λ e. e.info) entries

-- exportfs as documented: it keeps a table of exports, `-v` prints it with some blanks between path
-- and client, `-o` adds the entry that a target names, and `-u` takes one away, or says that it could
-- not find it.
pub record IsExportfs (R : Runner) (bin : Bytes) : Type 0 where
  pub table : R.World → List Listed
  pub table-IsListed : (w : R.World) → All IsListed (table w)
  pub prints :
      (w : R.World)
      → (R.run bin (codes "-v" ∷ []) w).0.1 ≡ true
      → (R.run bin (codes "-v" ∷ []) w).0.0 ≡ print_listing (table w)
  pub prints_only :
      (w : R.World) (p c : Bytes)
      → lists p c (infos (table (R.run bin (codes "-v" ∷ []) w).1)) ≡ lists p c (infos (table w))
  pub adds :
      (w : R.World) (options t p c : Bytes)
      → IsPath p
      → IsClient c
      → (R.run bin (codes "-o" ∷ options ∷ t ∷ []) w).0.1 ≡ true
      → lists p c (infos (table (R.run bin (codes "-o" ∷ options ∷ t ∷ []) w).1))
        ≡ (t =b target p c) || lists p c (infos (table w))
  pub removes :
      (w : R.World) (t p c : Bytes)
      → IsPath p
      → IsClient c
      → (let r = R.run bin (codes "-u" ∷ t ∷ []) w in
          r.0.1 || contains r.0.0 (codes "Could not find"))
        ≡ true
      → lists p c (infos (table (R.run bin (codes "-u" ∷ t ∷ []) w).1))
        ≡ not (t =b target p c) && lists p c (infos (table w))

-- What is listed is a path and a client.
pub listed-IsPair :
    (p c : Bytes) (entries : List Listed)
    → All IsListed entries
    → lists p c (infos entries) ≡ true
    → IsPath p × IsClient c
listed-IsPair p c [] h found = absurd (cc (found))
listed-IsPair p c (e ∷ entries) h found =
    elim (Bool-cases (e.info.path =b p && e.info.client =b c)) [
      | inl here ↦ (
        subst IsPath ((eq_iff e.info.path p).0 (ground (arith, here))) h.0.0,
        subst IsClient ((eq_iff e.info.client c).0 (ground (arith, here))) h.0.1,
      )
      | inr other ↦ listed-IsPair p c entries h.1 (ground (arith, found, other))
    ]

-- Targets are equal exactly where their paths and clients are.
pub target-same :
    (path client p c : Bytes)
    → IsPath path
    → IsClient client
    → IsPath p
    → IsClient c
    → (target path client =b target p c) ≡ (path =b p && client =b c)
target-same path client p c abs addr abs' addr' =
    elim (Bool-cases (target path client =b target p c)) [
      | inl t ↦
          let (e, f) =
            target-injective path client p c abs addr abs' addr'
              ((eq_iff (target path client) (target p c)).0 t) in
          ground (arith, t, (eq_iff path p).1 e, (eq_iff client c).1 f)
      | inr n ↦ elim (Bool-cases (path =b p && client =b c)) [
        | inr f ↦ ground (arith, n, f)
        | inl b ↦
            let e = (eq_iff path p).0 (ground (arith, b)) in
            let f = (eq_iff client c).0 (ground (arith, b)) in
            let same = ap (λ q. target q client) e ∙ ap (λ d. target p d) f in
            absurd (ground (arith, n, (eq_iff (target path client) (target p c)).1 same))
      ]
    ]

pub Bool-same : (a b : Bool) → (a ≡ true → b ≡ true) → (b ≡ true → a ≡ true) → a ≡ b
Bool-same true b h k = sym (h refl)
Bool-same false true h k = k refl
Bool-same false false h k = refl

pub any-clients_of :
    (path c : Bytes) (entries : List ExportInfo)
    → any (λ d. d =b c) (clients_of path entries) ≡ lists path c entries
unfolding clients_of
any-clients_of path c [] = refl
any-clients_of path c (e ∷ entries) = ground (arith, any-clients_of path c entries)

pub clients_of-IsClient :
    (path : Bytes) (entries : List Listed)
    → All IsListed entries
    → All IsClient (clients_of path (infos entries))
unfolding clients_of
clients_of-IsClient path [] h = tt
clients_of-IsClient path (e ∷ entries) h = elim (Bool-cases (e.info.path =b path)) [
  | inl t ↦ rw t (h.0.1, clients_of-IsClient path entries h.1)
  | inr t ↦ rw t (clients_of-IsClient path entries h.1)
]

pub infos-IsPath :
    (entries : List Listed) → All IsListed entries → All (λ e. IsPath e.path) (infos entries)
infos-IsPath [] h = tt
infos-IsPath (e ∷ entries) h = (h.0.0, infos-IsPath entries h.1)
