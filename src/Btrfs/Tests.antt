-- ===== src/Btrfs/Tests.antt =====
-- The outputs that agent/storage/btrfs/btrfs_test.go parses, and the bulk query over a tool that
-- answers with them.
use btrfs_nfs_csi.Base.{
  if◌then◌else◌, ◌≡◌, refl, true, false, [], ◌∷◌, none, some, Bytes, codes, ◌=b◌, lookup, insert,
  fields, has_prefix, contains,
}
use btrfs_nfs_csi.Strconv.{parse_uint}
use btrfs_nfs_csi.Nfs.Kernel.{Runner}
use btrfs_nfs_csi.Storage.Usage.{QgroupInfo}
use btrfs_nfs_csi.Btrfs.{
  cut_text, parse_subvol_lines, parse_subvolume_list_full, parse_qgroup_lines, parse_qgroup_map,
  join_usage, show_qgroups, output_of, qgroup_usage_bulk, qgroup_usage_ex, subvolume_id,
}

abbrev listing : Bytes
listing =
    codes "ID 259 gen 12 top level 5 path t/a b/data\nID 260 gen 13 top level 5 path t/c/data\n"

abbrev table : Bytes
table = codes "qgroupid rfer excl\n-------- ---- ----\n0/5 16384 16384\n0/259 32768 8192\n"

abbrev shown : Bytes
shown = codes "t/c\n\tName: \t\tc\n\tSubvolume ID: \t\t259\n"

-- A tool that knows three commands, by their second word.
abbrev tool : Runner
tool = record {
  World = Unit {0};
  run = λ bin args w. elim args [
    | sub ∷ (verb ∷ rest) ↦
        if sub =b codes "qgroup"
        then ((table, true), w)
        else if verb =b codes "list"
        then ((listing, true), w)
        else ((shown, true), w)
    | _ ↦ (([], false), w)
  ];
}

abbrev of_259 : QgroupInfo
of_259 = record { referenced = 32768; exclusive = 8192 }

qgroup_usage_bulk_run :
    (qgroup_usage_bulk tool (codes "btrfs") (codes "/srv") tt).0
    ≡ some ((codes "t/a b/data", of_259) ∷ [])
unfolding qgroup_usage_bulk output_of show_qgroups parse_subvolume_list_full parse_subvol_lines
    fields cut_text has_prefix parse_qgroup_map parse_qgroup_lines contains parse_uint join_usage
    lookup insert ◌=b◌
qgroup_usage_bulk_run = refl

qgroup_usage_ex_run : (qgroup_usage_ex tool (codes "btrfs") (codes "/srv/t") tt).0 ≡ some of_259
unfolding qgroup_usage_ex output_of show_qgroups subvolume_id fields has_prefix parse_qgroup_map
    parse_qgroup_lines contains parse_uint lookup insert ◌=b◌
qgroup_usage_ex_run = refl

-- A number that does not parse makes the whole table fail.
broken_table_run : parse_qgroup_map (codes "0/5 16384 16384\n0/6 x 1\n") ≡ none
unfolding parse_qgroup_map parse_qgroup_lines fields contains has_prefix parse_uint insert
broken_table_run = refl
