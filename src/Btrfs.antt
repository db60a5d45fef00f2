-- ===== src/Btrfs.antt =====
-- agent/storage/btrfs: the manager that runs the tool btrfs, and the parsers of its lists of
-- subvolumes and quota groups in utils.go.
pub mod Joined
mod Tests
use btrfs_nfs_csi.Base.{
  ℕ, Bool, true, false, not, ◌&&◌, ◌||◌, List, [], ◌∷◌, ◌++◌, Option, none, some, Bytes, codes,
  Dict, ◌=b◌, lookup, insert, drop, length, leb, cut, split, fields, has_prefix, contains,
  trim_space, is_none, if◌then◌else◌,
}
use btrfs_nfs_csi.Strconv.{parse_uint, max_u64, format}
use btrfs_nfs_csi.Validate.{is_valid_compression}
use btrfs_nfs_csi.Nfs.Kernel.{Runner}
use btrfs_nfs_csi.Storage.Usage.{QgroupInfo}

-- strings.Cut at a text.
unfoldable pub cut_text : Bytes → Bytes → Option (Bytes × Bytes)
cut_text sep [] = if has_prefix [] sep then some ([], []) else none
cut_text sep (c ∷ s) =
    let rest = cut_text sep s in
    if has_prefix (c ∷ s) sep
    then some ([], drop (length sep) (c ∷ s))
    else elim rest [ none ↦ none | some (a, b) ↦ some (c ∷ a, b) ]

pub record SubvolEntry : Type 0 where
  pub id : Bytes
  pub path : Bytes

abbrev has_nine : List Bytes → Bool
has_nine words = leb 9 (length words)

-- One line of the list; `none` where it is passed over.
unfoldable pub parse_subvol_words : List Bytes → Bytes → Option SubvolEntry
parse_subvol_words [] line = none
parse_subvol_words (w ∷ []) line = none
parse_subvol_words (w ∷ (id ∷ words)) line =
    if has_nine (w ∷ (id ∷ words)) && w =b codes "ID"
    then elim (cut_text (codes " path ") line) [
      | none ↦ none
      | some (before, path) ↦ some record { id = id; path = path }
    ]
    else none

unfoldable pub parse_subvol_lines : List Bytes → List SubvolEntry
unfolding parse_subvol_words
parse_subvol_lines [] = []
parse_subvol_lines (line ∷ lines) =
    let rest = parse_subvol_lines lines in
    elim (parse_subvol_words (fields line) line) [ none ↦ rest | some e ↦ e ∷ rest ]

unfoldable pub parse_subvolume_list_full : Bytes → List SubvolEntry
parse_subvolume_list_full out = parse_subvol_lines (split b'\n' (trim_space out))

unfoldable pub parse_qgroup : Bytes → Bytes → Option QgroupInfo
parse_qgroup referenced exclusive = elim (parse_uint 10 max_u64 referenced) [
  | none ↦ none
  | some r ↦ elim (parse_uint 10 max_u64 exclusive) [
    | none ↦ none
    | some e ↦ some record { referenced = r; exclusive = e }
  ]
]

-- One line of the table of quota groups, into the map.
unfoldable pub parse_qgroup_words : List Bytes → Dict QgroupInfo → Option (Dict QgroupInfo)
unfolding parse_qgroup
parse_qgroup_words (id ∷ (referenced ∷ (exclusive ∷ words))) result =
    if contains id (codes "/")
    then elim (parse_qgroup referenced exclusive) [
      | none ↦ none
      | some info ↦ some (insert id info result)
    ]
    else some result
parse_qgroup_words _ result = some result

unfoldable pub parse_qgroup_lines : List Bytes → Dict QgroupInfo → Option (Dict QgroupInfo)
unfolding parse_qgroup_words
parse_qgroup_lines [] result = some result
parse_qgroup_lines (line ∷ lines) result = elim (parse_qgroup_words (fields line) result) [
  | none ↦ none
  | some next ↦ parse_qgroup_lines lines next
]

unfoldable pub parse_qgroup_map : Bytes → Option (Dict QgroupInfo)
parse_qgroup_map out = parse_qgroup_lines (split b'\n' out) []

-- `"0/"+sv.ID`
abbrev pub qgroup_id : Bytes → Bytes
qgroup_id id = codes "0/" ++ id

-- The loop that joins the two lists.
unfoldable pub join_usage : Dict QgroupInfo → List SubvolEntry → Dict QgroupInfo → Dict QgroupInfo
join_usage qgroups [] result = result
join_usage qgroups (sv ∷ subvols) result =
    join_usage qgroups subvols (elim (lookup (qgroup_id sv.id) qgroups) [
      | none ↦ result
      | some info ↦ insert sv.path info result
    ])

-- The text behind the first line that begins, without its spaces, with "Subvolume ID:".
unfoldable pub subvolume_id : List Bytes → Bytes
subvolume_id [] = []
subvolume_id (line ∷ lines) =
    let rest = subvolume_id lines in
    let trimmed = trim_space line in
    if has_prefix trimmed (codes "Subvolume ID:")
    then trim_space (drop (length (codes "Subvolume ID:")) trimmed)
    else rest

module _ (R : Runner) (bin : Bytes) where
  unfoldable pub run_tool : List Bytes → R.World → Bool × R.World
  run_tool args w = let r = R.run bin args w in (r.0.1, r.1)

  unfoldable pub output_of : List Bytes → R.World → Option Bytes × R.World
  output_of args w = let r = R.run bin args w in (if r.0.1 then some r.0.0 else none, r.1)

  unfoldable pub subvolume_create : Bytes → R.World → Bool × R.World
  subvolume_create path = run_tool (codes "subvolume" ∷ codes "create" ∷ path ∷ [])

  unfoldable pub subvolume_delete : Bytes → R.World → Bool × R.World
  subvolume_delete path = run_tool (codes "subvolume" ∷ codes "delete" ∷ path ∷ [])

  unfoldable pub subvolume_snapshot : Bytes → Bytes → Bool → R.World → Bool × R.World
  subvolume_snapshot src dst true =
      run_tool (codes "subvolume" ∷ codes "snapshot" ∷ codes "-r" ∷ src ∷ dst ∷ [])
  subvolume_snapshot src dst false =
      run_tool (codes "subvolume" ∷ codes "snapshot" ∷ src ∷ dst ∷ [])

  unfoldable pub subvolume_exists : Bytes → R.World → Bool × R.World
  subvolume_exists path = run_tool (codes "subvolume" ∷ codes "show" ∷ path ∷ [])

  unfoldable pub quota_check : Bytes → R.World → Bool × R.World
  quota_check path = run_tool (codes "qgroup" ∷ codes "show" ∷ path ∷ [])

  unfoldable pub qgroup_limit : Bytes → ℕ → R.World → Bool × R.World
  qgroup_limit path bytes = run_tool (codes "qgroup" ∷ codes "limit" ∷ format 10 bytes ∷ path ∷ [])

  -- The one call of another program.
  unfoldable pub set_no_cow : Bytes → R.World → Bool × R.World
  set_no_cow path w = let r = R.run (codes "chattr") (codes "+C" ∷ path ∷ []) w in (r.0.1, r.1)

  unfoldable pub set_compression : Bytes → Bytes → R.World → Bool × R.World
  set_compression path algo w =
      if is_valid_compression algo
      then run_tool (codes "property" ∷ codes "set" ∷ path ∷ codes "compression" ∷ algo ∷ []) w
      else (false, w)

  unfoldable pub show_qgroups : Bytes → R.World → Option Bytes × R.World
  show_qgroups path =
      output_of (codes "qgroup" ∷ codes "show" ∷ codes "-re" ∷ codes "--raw" ∷ path ∷ [])

  abbrev pub qgroups_in : Option Bytes → Option (Dict QgroupInfo)
  qgroups_in none = none
  qgroups_in (some out) = parse_qgroup_map out

  abbrev found_in : Bytes → Option (Dict QgroupInfo) → Option QgroupInfo
  found_in id none = none
  found_in id (some qgroups) = lookup (qgroup_id id) qgroups

  usage_with_id : Bytes → Bytes → R.World → Option QgroupInfo × R.World
  usage_with_id path id w =
      if id =b []
      then (none, w)
      else (let out = show_qgroups path w in (found_in id (qgroups_in out.0), out.1))

  -- QgroupUsageEx
  unfoldable pub qgroup_usage_ex : Bytes → R.World → Option QgroupInfo × R.World
  unfolding usage_with_id
  qgroup_usage_ex path w =
      let shown = output_of (codes "subvolume" ∷ codes "show" ∷ path ∷ []) w in
      elim shown.0 [
        | none ↦ (none, shown.1)
        | some out ↦ usage_with_id path (subvolume_id (split b'\n' out)) shown.1
      ]

  joined : Bytes → Option Bytes → Option (Dict QgroupInfo)
  joined listed qgroup_out = elim (qgroups_in qgroup_out) [
    | none ↦ none
    | some qgroups ↦ some (join_usage qgroups (parse_subvolume_list_full listed) [])
  ]

  -- QgroupUsageBulk
  unfoldable pub qgroup_usage_bulk : Bytes → R.World → Option (Dict QgroupInfo) × R.World
  unfolding joined
  qgroup_usage_bulk path w =
      let listed = output_of (codes "subvolume" ∷ codes "list" ∷ codes "-o" ∷ path ∷ []) w in
      elim listed.0 [
        | none ↦ (none, listed.1)
        | some out ↦ let shown = show_qgroups path listed.1 in (joined out shown.0, shown.1)
      ]
