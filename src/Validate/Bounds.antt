-- ===== src/Validate/Bounds.antt =====
-- What the accepted values satisfy.
use btrfs_nfs_csi.Base.{ℕ, ◌≤◌, ◌≡◌, true, false, [], ◌∷◌, some, Bytes, Lacks, all, arith}
use btrfs_nfs_csi.Base.Int.{ℤ, pos, to_ℕ}
use btrfs_nfs_csi.Strconv.{format, max_u32}
use btrfs_nfs_csi.Strconv.RoundTrip.{parse_uint-format}
use btrfs_nfs_csi.Validate.{is_name_char, valid_name, validate_uid, validate_mode, max_id}

name_chars-Lacks :
    (sep : ℕ) (s : Bytes) → is_name_char sep ≡ false → all is_name_char s ≡ true → Lacks sep s
name_chars-Lacks sep [] h k = tt
name_chars-Lacks sep (c ∷ s) h k = ground (arith, name_chars-Lacks sep s h)

-- A valid name holds no byte outside its character class, so neither a slash nor a bar nor a dot.
pub valid_name-Lacks :
    (sep : ℕ) (s : Bytes) → is_name_char sep ≡ false → valid_name s ≡ true → Lacks sep s
unfolding valid_name
valid_name-Lacks sep s h k = name_chars-Lacks sep s h (ground arith)

pub validate_uid-le :
    (uid : ℤ) → validate_uid uid ≡ true → (uid ≡ pos (to_ℕ uid)) × (to_ℕ uid ≤ max_id)
unfolding validate_uid
validate_uid-le uid h = ground arith

pub validate_mode-le : (s : Bytes) (m : ℕ) → validate_mode s ≡ some m → m ≤ 0o7777
unfolding validate_mode
validate_mode-le s m h = ground arith

-- A mode printed by `%o` is read back as the same mode.
pub validate_mode-format : (m : ℕ) → m ≤ 0o7777 → validate_mode (format 8 m) ≡ some m
unfolding validate_mode
validate_mode-format m h =
    ground (arith, parse_uint-format 8 max_u32 (omega arith) (omega arith) m (omega arith))
