-- ===== src/Validate.antt =====
-- config/config.go (names and labels) and utils/validation.go (owner, mode, compression).
pub mod Bounds
use btrfs_nfs_csi.Base.{
  ℕ, ◌≡◌, refl, Bool, true, false, not, ◌&&◌, ◌||◌, List, [], ◌∷◌, Option, none, some, Bytes, codes,
  ltb, leb, ◌==◌, ◌=b◌, cut, Dict, lookup, length, all, if◌then◌else◌, is_none,
}
use btrfs_nfs_csi.Base.Int.{ℤ, is_negative, above}
use btrfs_nfs_csi.Strconv.{parse_uint, atoi, max_u32}

abbrev pub Labels : Type 0
Labels = Dict Bytes

-- The character classes of the regular expressions.
is_lower_alnum : ℕ → Bool
is_lower_alnum c = (leb b'a' c && leb c b'z') || (leb b'0' c && leb c b'9')

is_alnum : ℕ → Bool
unfolding is_lower_alnum
is_alnum c = is_lower_alnum c || (leb b'A' c && leb c b'Z')

unfoldable pub is_name_char : ℕ → Bool
unfolding is_alnum
is_name_char c = is_alnum c || c == b'_' || c == b'-'

is_value_char : ℕ → Bool
unfolding is_alnum
is_value_char c = is_alnum c || c == b'.' || c == b'_' || c == b'-'

is_key_char : ℕ → Bool
unfolding is_lower_alnum
is_key_char c = is_lower_alnum c || c == b'.' || c == b'_' || c == b'-'

-- ^[a-zA-Z0-9_-]{1,128}$
unfoldable pub valid_name : Bytes → Bool
unfolding is_name_char
valid_name s = leb 1 (length s) && leb (length s) 128 && all is_name_char s

-- ^[a-z0-9][a-z0-9._-]{0,62}$
unfoldable pub valid_label_key : Bytes → Bool
unfolding is_lower_alnum is_key_char
valid_label_key [] = false
valid_label_key (c ∷ s) = is_lower_alnum c && leb (length s) 62 && all is_key_char s

-- ^[a-zA-Z0-9._-]{0,128}$
unfoldable pub valid_label_val : Bytes → Bool
unfolding is_value_char
valid_label_val s = leb (length s) 128 && all is_value_char s

abbrev pub max_labels : ℕ
max_labels = 32

unfoldable pub all_labels_valid : Labels → Bool
unfolding valid_label_key valid_label_val
all_labels_valid [] = true
all_labels_valid ((k, v) ∷ m) = valid_label_key k && valid_label_val v && all_labels_valid m

-- `true` where ValidateLabels returns nil. Its errors are all of one type.
unfoldable pub validate_labels : Labels → Bool
unfolding all_labels_valid
validate_labels m = not (ltb max_labels (length m)) && all_labels_valid m

abbrev pub label_created_by : Bytes
label_created_by = codes "created-by"

abbrev pub label_clone_source_type : Bytes
label_clone_source_type = codes "clone.source.type"

abbrev pub label_clone_source_name : Bytes
label_clone_source_name = codes "clone.source.name"

abbrev pub soft_reserved_label_keys : List Bytes
soft_reserved_label_keys = label_created_by ∷ label_clone_source_type ∷ label_clone_source_name ∷ []

abbrev pub max_id : ℕ
max_id = 65534

-- `true` where ValidateUID and ValidateGID return nil.
unfoldable pub validate_uid : ℤ → Bool
validate_uid uid = not (is_negative uid || above max_id uid)

unfoldable pub validate_gid : ℤ → Bool
validate_gid gid = not (is_negative gid || above max_id gid)

unfoldable pub validate_mode : Bytes → Option ℕ
validate_mode s = elim (parse_uint 8 max_u32 s) [
  | none ↦ none
  | some mode ↦ if ltb 0o7777 mode then none else some mode
]

-- The table of algorithms and of their highest levels.
abbrev pub compression_max_level : Dict ℕ
compression_max_level = (codes "zstd", 15) ∷ (codes "zlib", 9) ∷ (codes "lzo", 0) ∷ []

level_in_range : ℕ → Option ℤ → Bool
level_in_range top none = false
level_in_range top (some level) = not (is_negative level) && above 0 level && not (above top level)

valid_level : ℕ → Bytes → Bool
unfolding level_in_range
valid_level top level = not (top == 0) && level_in_range top (atoi level)

valid_algorithm : Bytes → Option Bytes → Bool
unfolding valid_level
valid_algorithm algo level = elim (lookup algo compression_max_level) [
  | none ↦ false
  | some top ↦ elim level [ none ↦ true | some text ↦ valid_level top text ]
]

unfoldable pub is_valid_compression : Bytes → Bool
unfolding valid_algorithm
is_valid_compression s = if s =b [] || s =b codes "none" then true else elim (cut b':' s) [
  | none ↦ valid_algorithm s none
  | some (algo, level) ↦ valid_algorithm algo (some level)
]

-- `Compression != "" && Compression != "none"`
unfoldable pub compresses : Bytes → Bool
compresses s = not (s =b []) && not (s =b codes "none")

compression_runs :
    (is_valid_compression (codes "zstd:15") ≡ true)
    × (is_valid_compression (codes "zstd:16") ≡ false)
    × (is_valid_compression (codes "lzo:1") ≡ false)
    × (is_valid_compression (codes "lzo") ≡ true)
    × (is_valid_compression (codes "zlib:0") ≡ false)
unfolding is_valid_compression lookup cut atoi parse_uint ◌=b◌
compression_runs = (refl, refl, refl, refl, refl)

name_runs : (valid_name (codes "pvc-1_A") ≡ true) × (valid_name (codes "..") ≡ false)
unfolding valid_name
name_runs = (refl, refl)
