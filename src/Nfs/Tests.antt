-- ===== src/Nfs/Tests.antt =====
-- A tool with one entry, and an exporter in memory, on which the theorems on NFS exports run.
use btrfs_nfs_csi.Base.{
  ◌≡◌, refl, ap, sym, ◌∙◌, Bool, true, false, not, ◌&&◌, ◌||◌, List, [], ◌∷◌, All, Bytes, codes,
  ◌=b◌, eq_iff, IsWord, inl, inr, Bool-cases, if◌then◌else◌, arith,
}
use btrfs_nfs_csi.Nfs.{ExportInfo, lists, IsExporter}
use btrfs_nfs_csi.Nfs.Kernel.{Runner, target, parse_exports, kernel_exporter}
use btrfs_nfs_csi.Nfs.Listing.{
  Listed, print_listing, IsPath, IsClient, IsGap, IsListed, parse_exports-print_listing,
}
use btrfs_nfs_csi.Nfs.Tool.{IsExportfs, infos, target-same}
use btrfs_nfs_csi.Nfs.Refine.{kernel_exporter-IsExporter}

abbrev share : ExportInfo
share = record { path = codes "/pool/a"; client = codes "fd00::1" }

abbrev shared : Listed
shared = record { one_line = true; gap = codes "\t"; info = share; options = codes "rw,fsid=7" }

abbrev share_target : Bytes
share_target = target share.path share.client

abbrev table_of : Bool → List Listed
table_of true = shared ∷ []
table_of false = []

-- The tool knows one entry, which is there or not.
abbrev answer : List Bytes → Bool → (Bytes × Bool) × Bool
answer (flag ∷ []) w = ((print_listing (table_of w), true), w)
answer (flag ∷ t ∷ []) w =
    if t =b share_target then (([], true), false) else ((codes "Could not find", false), w)
answer (flag ∷ o ∷ t ∷ []) w = if t =b share_target then (([], true), true) else (([], false), w)
answer _ w = (([], false), w)

abbrev one_share : Runner
one_share = record { World = Bool; run = λ bin args w. answer args w }

share-IsPath : IsPath share.path
share-IsPath = ((codes "pool/a", refl), (refl, (refl, (refl, (refl, (refl, (refl, (refl, tt))))))))

share-IsClient : IsClient share.client
share-IsClient = record {
  filled = λ p. absurd (cc);
  word = (refl, (refl, (refl, (refl, (refl, (refl, (refl, tt)))))));
  no_bracket = omega arith;
  no_parenthesis = omega arith;
  no_slash = omega arith;
}

-- The target of the entry names the entry's pair and no other.
share-same :
    (p c : Bytes)
    → IsPath p
    → IsClient c
    → (share_target =b target p c) ≡ (share.path =b p && share.client =b c)
share-same p c abs addr =
    target-same share.path share.client p c share-IsPath share-IsClient abs addr

-- Another target is another pair.
elsewhere :
    (t p c : Bytes)
    → IsPath p
    → IsClient c
    → (t =b share_target) ≡ false
    → ((t =b target p c) && (share.path =b p && share.client =b c)) ≡ false
elsewhere t p c abs addr other =
    let same = share-same p c abs addr in
    let joined = λ (e : (t =b target p c) ≡ true) (f : (share_target =b target p c) ≡ true).
      (eq_iff t share_target).1
        ((eq_iff t (target p c)).0 e ∙ sym ((eq_iff share_target (target p c)).0 f)) in
    ground (arith, other, same, joined)

one_share-adds :
    (w : Bool) (options t p c : Bytes)
    → IsPath p
    → IsClient c
    → (answer (codes "-o" ∷ options ∷ t ∷ []) w).0.1 ≡ true
    → lists p c (infos (table_of (answer (codes "-o" ∷ options ∷ t ∷ []) w).1))
      ≡ (t =b target p c) || lists p c (infos (table_of w))
one_share-adds w options t p c abs addr ok = elim (Bool-cases (t =b share_target)) [
  | inr f ↦ absurd (ground (arith, ok, f))
  | inl h ↦
      let same =
        ap (λ s. s =b target p c) ((eq_iff t share_target).0 h) ∙ share-same p c abs addr in
      elim w
        as (λ v.
          lists p c (infos (table_of (answer (codes "-o" ∷ options ∷ t ∷ []) v).1))
          ≡ (t =b target p c) || lists p c (infos (table_of v))) [
            | true ↦ rw (h, same) (ground arith)
            | false ↦ rw (h, same) (ground arith)
          ]
]

one_share-removes :
    (w : Bool) (t p c : Bytes)
    → IsPath p
    → IsClient c
    → lists p c (infos (table_of (answer (codes "-u" ∷ t ∷ []) w).1))
      ≡ not (t =b target p c) && lists p c (infos (table_of w))
one_share-removes false t p c abs addr = elim (Bool-cases (t =b share_target)) [
  | inr f ↦ rw f (ground arith)
  | inl h ↦ rw h (ground arith)
]
one_share-removes true t p c abs addr = elim (Bool-cases (t =b share_target)) [
  | inr f ↦ rw f (ground (arith, elsewhere t p c abs addr f))
  | inl h ↦
      let same =
        ap (λ s. s =b target p c) ((eq_iff t share_target).0 h) ∙ share-same p c abs addr in
      rw (h, same) (ground arith)
]

one_tab : IsGap (codes "\t")
one_tab = record { some_blank = λ p. absurd (cc); all_blank = (refl, tt) }

rw_options : IsWord shared.options
rw_options = (refl, (refl, (refl, (refl, (refl, (refl, (refl, (refl, (refl, tt)))))))))

table-IsListed : (w : Bool) → All IsListed (table_of w)
table-IsListed true = ((share-IsPath, share-IsClient, rw_options, one_tab), tt)
table-IsListed false = tt

one_share-IsExportfs : (bin : Bytes) → IsExportfs one_share bin
one_share-IsExportfs bin = record {
  table = table_of;
  table-IsListed = table-IsListed;
  prints = λ w h. refl;
  prints_only = λ w p c. refl;
  adds = λ w options t p c abs addr ok. one_share-adds w options t p c abs addr ok;
  removes = λ w t p c abs addr ok. one_share-removes w t p c abs addr;
}

kernel_exporter-IsExporter_example :
    IsExporter (kernel_exporter one_share (codes "exportfs") (codes "rw")) IsPath IsClient
kernel_exporter-IsExporter_example =
    kernel_exporter-IsExporter one_share (codes "exportfs") (codes "rw")
      (one_share-IsExportfs (codes "exportfs"))

parse_exports-print_listing_example : parse_exports (print_listing (shared ∷ [])) ≡ share ∷ []
parse_exports-print_listing_example =
    parse_exports-print_listing (shared ∷ []) (table-IsListed true)
