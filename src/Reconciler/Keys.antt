-- ===== src/Reconciler/Keys.antt =====
-- What the maps of reconcileExports in agent/storage/reconciler.go hold: the addresses of a volume,
-- the exports below the tenant's directory, and their paths.
use btrfs_nfs_csi.Base.{
  ◌≡◌, refl, ap, ◌∙◌, inl, inr, Bool, true, ◌&&◌, ◌||◌, List, [], ◌∷◌, ◌++◌, any, All, Bytes, codes,
  ◌=b◌, eq_iff, has_prefix, insert_sorted, sort, Bool-cases, arith,
}
use btrfs_nfs_csi.Storage.Model.{ExportMetadata, seen_ips}
use btrfs_nfs_csi.Nfs.{ExportInfo, lists}
use btrfs_nfs_csi.Reconciler.{unique_export_ips, tenant_exports, path_keys}

-- The text is in the list.
abbrev pub has : Bytes → List Bytes → Bool
has c l = any (λ d. d =b c) l

has-insert_sorted : (c s : Bytes) (l : List Bytes) → has c (insert_sorted s l) ≡ (s =b c || has c l)
unfolding insert_sorted
has-insert_sorted c s [] = refl
has-insert_sorted c s (t ∷ ts) = ground (arith, has-insert_sorted c s ts)

has-sort : (c : Bytes) (l : List Bytes) → has c (sort l) ≡ has c l
unfolding sort
has-sort c [] = refl
has-sort c (s ∷ ss) = has-insert_sorted c s (sort ss) ∙ ap (λ b. s =b c || b) (has-sort c ss)

abbrev pub has_ip : Bytes → List ExportMetadata → Bool
has_ip c clients = any (λ e. e.ip =b c) clients

any-has : (s c : Bytes) (l : List Bytes) → any (λ d. s =b d) l ≡ true → s ≡ c → has c l ≡ true
any-has s c [] h e = absurd (cc)
any-has s c (d ∷ l) h e = ground (arith, eq_iff s d, eq_iff d c, any-has s c l, e)

has-seen_ips :
    (c : Bytes) (clients : List ExportMetadata) (seen : List Bytes)
    → has c (seen_ips clients seen) ≡ (has c seen || has_ip c clients)
unfolding seen_ips
has-seen_ips c [] seen = ground arith
has-seen_ips c (e ∷ clients) seen = elim (Bool-cases (any (λ ip. e.ip =b ip) seen)) [
  | inl t ↦
      rw t (has-seen_ips c clients seen ∙ ground (arith, t, any-has e.ip c seen, eq_iff e.ip c))
  | inr f ↦ rw f (has-seen_ips c clients (e.ip ∷ seen) ∙ ground arith)
]

pub has-unique_export_ips :
    (c : Bytes) (clients : List ExportMetadata)
    → has c (unique_export_ips clients) ≡ has_ip c clients
unfolding unique_export_ips
has-unique_export_ips c clients = has-sort c (seen_ips clients []) ∙ has-seen_ips c clients []

abbrev pub has_path : Bytes → List ExportInfo → Bool
has_path p entries = any (λ e. e.path =b p) entries

pub has-path_keys :
    (p : Bytes) (entries : List ExportInfo) (seen : List Bytes)
    → has p (path_keys entries seen) ≡ (has p seen || has_path p entries)
unfolding path_keys
has-path_keys p [] seen = ground arith
has-path_keys p (e ∷ entries) seen = elim (Bool-cases (any (λ q. e.path =b q) seen)) [
  | inl t ↦
      rw t
        (has-path_keys p entries seen ∙ ground (arith, t, any-has e.path p seen, eq_iff e.path p))
  | inr f ↦ rw f (has-path_keys p entries (e.path ∷ seen) ∙ ground arith)
]

-- The path is below the tenant's directory.
abbrev pub is_below : Bytes → Bytes → Bool
is_below tenant_dir p = has_prefix p (tenant_dir ++ codes "/")

pub lists-tenant_exports :
    (td p c : Bytes) (entries : List ExportInfo)
    → lists p c (tenant_exports td entries) ≡ is_below td p && lists p c entries
unfolding tenant_exports
lists-tenant_exports td p c [] = ground arith
lists-tenant_exports td p c (e ∷ entries) =
    let ih = lists-tenant_exports td p c entries in
    elim (Bool-cases (e.path =b p)) [
      | inl t ↦ let q = ap (is_below td) ((eq_iff e.path p).0 t) in ground (arith, ih, q)
      | inr f ↦ ground (arith, ih, f)
    ]

has_path-filtered :
    (td p : Bytes) (entries : List ExportInfo)
    → has_path p (tenant_exports td entries) ≡ is_below td p && has_path p entries
unfolding tenant_exports
has_path-filtered td p [] = ground arith
has_path-filtered td p (e ∷ entries) =
    let ih = has_path-filtered td p entries in
    elim (Bool-cases (e.path =b p)) [
      | inl t ↦ let q = ap (is_below td) ((eq_iff e.path p).0 t) in ground (arith, ih, q)
      | inr f ↦ ground (arith, ih, f)
    ]

lists-has_path :
    (p c : Bytes) (entries : List ExportInfo) → lists p c entries ≡ true → has_path p entries ≡ true
lists-has_path p c [] h = absurd (cc)
lists-has_path p c (e ∷ entries) h = ground (arith, lists-has_path p c entries)

pub has_path-tenant_exports :
    (td p c : Bytes) (entries : List ExportInfo)
    → lists p c entries ≡ true
    → has_path p (tenant_exports td entries) ≡ is_below td p
has_path-tenant_exports td p c entries h =
    ground (arith, has_path-filtered td p entries, lists-has_path p c entries h)

pub All-tenant_exports :
    (P : ExportInfo → Type 0) (td : Bytes) (entries : List ExportInfo)
    → All P entries
    → All P (tenant_exports td entries)
unfolding tenant_exports
All-tenant_exports P td [] h = tt
All-tenant_exports P td (e ∷ entries) h = elim (Bool-cases (is_below td e.path)) [
  | inl t ↦ rw t (h.0, All-tenant_exports P td entries h.1)
  | inr f ↦ rw f (All-tenant_exports P td entries h.1)
]

pub All-path_keys :
    (P : Bytes → Type 0) (entries : List ExportInfo) (seen : List Bytes)
    → All (λ e. P e.path) entries
    → All P seen
    → All P (path_keys entries seen)
unfolding path_keys
All-path_keys P [] seen h k = k
All-path_keys P (e ∷ entries) seen h k = elim (Bool-cases (any (λ q. e.path =b q) seen)) [
  | inl t ↦ rw t (All-path_keys P entries seen h.1 k)
  | inr f ↦ rw f (All-path_keys P entries (e.path ∷ seen) h.1 (h.0, k))
]
