-- ===== src/Tests.antt =====
-- The theorems on the small components, applied at inputs that the program meets.
use btrfs_nfs_csi.Base.{
  ◌≡◌, refl, ◌≢◌, [], ◌∷◌, ◌++◌, none, some, Bytes, codes, Lacks, inl, inr, arith, true, cut, ◌=b◌,
  lookup, insert,
}
use btrfs_nfs_csi.Strconv.{parse_uint, format, max_u64}
use btrfs_nfs_csi.Strconv.RoundTrip.{parse_uint-format}
use btrfs_nfs_csi.Validate.{Labels, valid_name, is_name_char, validate_mode, label_created_by}
use btrfs_nfs_csi.Validate.Bounds.{valid_name-Lacks, validate_mode-format}
use btrfs_nfs_csi.Sizes.{parse_size, binary_multiplier, scaled, scale}
use btrfs_nfs_csi.Sizes.Exact.{parse_size-exact, exact, exbi, suffix_of, size_of}
use btrfs_nfs_csi.FileMode.{file_mode, unix_mode, unix_mode-file_mode}
use btrfs_nfs_csi.Csi.Ids.{
  make_volume_id, parse_volume_id, make_node_id, parse_node_id, parse_volume_id-make_volume_id,
  make_volume_id-parse_volume_id, parse_node_id-make_node_id,
}
use btrfs_nfs_csi.Storage.Model.{label_at}
use btrfs_nfs_csi.Storage.Labels.{protect_immutable_labels, protect_keys, protect_key}
use btrfs_nfs_csi.Storage.Labels.Protected.{protect_immutable_labels-keeps}

-- 16 exbibytes do not fit in 64 bits.
parse_size-exact_example :
    parse_size (codes "16" ++ suffix_of exbi)
    ≡ exact (size_of exbi) (parse_uint 10 max_u64 (codes "16"))
parse_size-exact_example = parse_size-exact (codes "16") exbi

too_large : parse_size (codes "16Ei") ≡ none
unfolding parse_size binary_multiplier ◌=b◌ scaled parse_uint scale
too_large = refl

parse_uint-format_run : parse_uint 10 max_u64 (format 10 1073741824) ≡ some 1073741824
parse_uint-format_run =
    parse_uint-format 10 max_u64 (omega arith) (omega arith) 1073741824 (omega arith)

unix_mode-file_mode_run : unix_mode (file_mode 0o2770) ≡ 0o2770
unix_mode-file_mode_run = unix_mode-file_mode 0o2770 (omega arith)

validate_mode-format_run : validate_mode (format 8 0o2770) ≡ some 0o2770
validate_mode-format_run = validate_mode-format 0o2770 (omega arith)

abbrev class_name : Bytes
class_name = codes "fast"

abbrev pvc : Bytes
pvc = codes "pvc-1"

class_is_valid : valid_name class_name ≡ true
unfolding valid_name is_name_char
class_is_valid = refl

abbrev node : Bytes
node = codes "node-a"

node_is_valid : valid_name node ≡ true
unfolding valid_name is_name_char
node_is_valid = refl

pvc_is_valid : valid_name pvc ≡ true
unfolding valid_name is_name_char
pvc_is_valid = refl

valid_name-Lacks_run : Lacks b'/' pvc
unfolding is_name_char
valid_name-Lacks_run = valid_name-Lacks b'/' pvc refl pvc_is_valid

parse_volume_id-make_volume_id_example :
    parse_volume_id (make_volume_id class_name pvc) ≡ some (class_name, pvc)
unfolding is_name_char
parse_volume_id-make_volume_id_example =
    parse_volume_id-make_volume_id class_name pvc
      (valid_name-Lacks b'|' class_name refl class_is_valid) (λ e. absurd (cc)) (λ e. absurd (cc))

parsed : parse_volume_id (codes "fast|pvc-1") ≡ some (class_name, pvc)
unfolding parse_volume_id cut ◌=b◌
parsed = refl

make_volume_id-parse_volume_id_run :
    (make_volume_id class_name pvc ≡ codes "fast|pvc-1")
    × (class_name ≢ [])
    × (pvc ≢ [])
    × Lacks b'|' class_name
make_volume_id-parse_volume_id_run =
    make_volume_id-parse_volume_id (codes "fast|pvc-1") class_name pvc parsed

parse_node_id-make_node_id_run :
    parse_node_id (make_node_id node (codes "fe80::1")) ≡ some (node, codes "fe80::1")
unfolding is_name_char
parse_node_id-make_node_id_run =
    parse_node_id-make_node_id node (codes "fe80::1")
      (valid_name-Lacks b'|' node refl node_is_valid) λ e. absurd (cc)

abbrev owned : Labels
owned = (label_created_by, codes "k8s") ∷ []

abbrev renamed : Labels
renamed = (codes "app", codes "db") ∷ []

abbrev protected : Labels
protected = (codes "app", codes "db") ∷ owned

let_through : protect_immutable_labels [] owned renamed ≡ some protected
unfolding protect_immutable_labels protect_keys protect_key lookup ◌=b◌ label_at insert
let_through = refl

owner_is_set : label_at owned label_created_by ≢ []
unfolding label_at lookup ◌=b◌
owner_is_set e = absurd (cc)

protect_immutable_labels-keeps_example :
    label_at protected label_created_by ≡ label_at owned label_created_by
protect_immutable_labels-keeps_example =
    protect_immutable_labels-keeps [] owned renamed protected label_created_by let_through
      (inr (inl refl)) (inr owner_is_set)
