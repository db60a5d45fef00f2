-- ===== src/Storage/References.antt =====
-- The NFS exports of a volume as counted references: the server is called at the first reference of
-- an address and at the last one.
use btrfs_nfs_csi.Base.{
  ℕ, ◌+◌, ◌≡◌, ◌≢◌, refl, true, false, not, ◌&&◌, List, [], ◌∷◌, ◌++◌, filter, any, Option, none,
  some, Bytes, eq_iff, eq_refl, ◌==◌, arith,
}
use btrfs_nfs_csi.Validate.{Labels}
use btrfs_nfs_csi.Storage.Model.{VolumeMetadata, ExportMetadata, has_export, exports_for_ip}
use btrfs_nfs_csi.Storage.Exports.{add_export, remove_export, first_ref, last_ref, stays}

exports_for_ip-append :
    (xs ys : List ExportMetadata) (ip : Bytes)
    → exports_for_ip (xs ++ ys) ip ≡ exports_for_ip xs ip + exports_for_ip ys ip
unfolding exports_for_ip
exports_for_ip-append [] ys ip = omega arith
exports_for_ip-append (c ∷ xs) ys ip = ground (arith, exports_for_ip-append xs ys ip)

has_export-counted :
    (xs : List ExportMetadata) (ip : Bytes) (labels : Labels)
    → has_export xs ip labels ≡ true
    → (exports_for_ip xs ip == 0) ≡ false
unfolding has_export exports_for_ip
has_export-counted [] ip labels h = absurd (cc)
has_export-counted (c ∷ xs) ip labels h = ground (arith, has_export-counted xs ip labels)

one_more :
    (ip : Bytes) (labels : Labels) (now : ℕ)
    → exports_for_ip (record { ip = ip; labels = labels; created_at = now } ∷ []) ip ≡ 1
unfolding exports_for_ip
one_more ip labels now = rw (eq_refl ip) refl

-- firstRef, on which CreateVolumeExport calls the NFS server, is true exactly where the number of
-- references of the address goes from none to some.
pub first_ref-edge :
    (client : Bytes) (labels : Labels) (now : ℕ) (v : VolumeMetadata)
    → first_ref client labels v ≡ (
        (exports_for_ip v.exports client == 0)
        && not (exports_for_ip (add_export client labels now v).exports client == 0))
unfolding first_ref add_export
first_ref-edge client labels now v = ground (
  arith,
  has_export-counted v.exports client labels,
  exports_for_ip-append v.exports (record { ip = client; labels = labels; created_at = now } ∷ [])
      client,
  one_more client labels now,
)

removed-counted :
    (client : Bytes) (labels : Option Labels) (xs : List ExportMetadata)
    → any (λ c. not (stays client labels c)) xs ≡ true
    → (exports_for_ip xs client == 0) ≡ false
unfolding stays exports_for_ip
removed-counted client labels [] h = absurd (cc)
removed-counted client none (c ∷ xs) h = ground (arith, removed-counted client none xs)
removed-counted client (some m) (c ∷ xs) h = ground (arith, removed-counted client (some m) xs)

kept-counted :
    (client : Bytes) (labels : Option Labels) (xs : List ExportMetadata)
    → any (λ c. not (stays client labels c)) xs ≡ false
    → filter (stays client labels) xs ≡ xs
kept-counted client labels [] h = refl
kept-counted client labels (c ∷ xs) h = ground (arith, kept-counted client labels xs)

-- lastRef, on which DeleteVolumeExport calls the NFS server, is true exactly where the number of
-- references of the address goes from some to none.
pub last_ref-edge :
    (client : Bytes) (labels : Option Labels) (now : ℕ) (v : VolumeMetadata)
    → last_ref client labels v ≡ (
        not (exports_for_ip v.exports client == 0)
        && (exports_for_ip (remove_export client labels now v).exports client == 0))
unfolding last_ref remove_export
last_ref-edge client labels now v =
    ground (arith, removed-counted client labels v.exports, kept-counted client labels v.exports)

others-counted :
    (client ip : Bytes) (labels : Option Labels) (xs : List ExportMetadata)
    → client ≢ ip
    → exports_for_ip (filter (stays client labels) xs) ip ≡ exports_for_ip xs ip
unfolding stays exports_for_ip
others-counted client ip labels [] apart = refl
others-counted client ip none (c ∷ xs) apart =
    ground (arith, others-counted client ip none xs apart, eq_iff c.ip client, eq_iff c.ip ip)
others-counted client ip (some m) (c ∷ xs) apart =
    ground (arith, others-counted client ip (some m) xs apart, eq_iff c.ip client, eq_iff c.ip ip)

-- Removing the references of one address leaves the number of references of each other address.
pub remove_export-others :
    (client ip : Bytes) (labels : Option Labels) (now : ℕ) (v : VolumeMetadata)
    → client ≢ ip
    → exports_for_ip (remove_export client labels now v).exports ip ≡ exports_for_ip v.exports ip
unfolding remove_export
remove_export-others client ip labels now v apart = others-counted client ip labels v.exports apart
