-- ===== src/Pages/Tests.antt =====
-- Pages of two items over numbers, with an encoding that changes nothing.
use btrfs_nfs_csi.Base.{
  ℕ, ◌≡◌, refl, true, List, [], ◌∷◌, map, some, Bytes, codes, ◌=b◌, Lacks, arith,
}
use btrfs_nfs_csi.Base.Int.{pos, negsuc}
use btrfs_nfs_csi.Validate.{Labels, valid_name, is_name_char}
use btrfs_nfs_csi.Validate.Bounds.{valid_name-Lacks}
use btrfs_nfs_csi.Pages.{Base64, Handler, panics, paginated_list, encode_cursor}
use btrfs_nfs_csi.Pages.Cover.{walk, walk-cover, negative_cursor-panics}

abbrev pub plain : Base64
unfolding ◌=b◌
plain = record {
  encode = λ s. s;
  decode = λ s. some s;
  decode-encode = λ s. refl;
  decode-nil = refl;
  encode-cons = λ c s. refl;
}

abbrev pub no_labels : ℕ → Labels
no_labels n = []

abbrev pub empty : Handler ℕ
empty = record {
  default_page_limit = pos 100;
  max_snapshots = 100;
  page_snapshots = [];
  snapshot_count = 0;
}

abbrev pub ids : ℕ → Bytes
ids n = codes "ab12"

abbrev pub lists : ℕ → List ℕ
lists n = 1 ∷ 2 ∷ 3 ∷ 4 ∷ n ∷ []

id_is_valid : valid_name (ids 5) ≡ true
unfolding valid_name is_name_char
id_is_valid = refl

pub colon_free : Lacks b':' (ids 5)
unfolding is_name_char
colon_free = valid_name-Lacks b':' (ids 5) refl id_is_valid

walk-cover_example : walk plain (λ n. n) no_labels 1 6 ids lists empty [] ≡ map (λ n. n) (lists 5)
walk-cover_example =
    walk-cover plain (λ n. n) no_labels 1 5 ids lists empty colon_free (omega arith) (omega arith)

negative_cursor-panics_example :
    (let once = paginated_list plain (λ n. n) no_labels (ids 5) empty [] (pos 2) [] (lists 5) in
      (paginated_list plain
        (λ n. n)
        no_labels
        (ids 0)
        once.1
        (encode_cursor plain (record { snap_id = ids 5; offset = negsuc 0 }))
        (pos 2)
        []
        (lists 0)).0
      ≡ panics)
negative_cursor-panics_example =
    negative_cursor-panics plain (λ n. n) no_labels 1 (ids 5) (ids 0) 0 (lists 5) (lists 0) empty
      colon_free (omega arith) (omega arith) (omega arith)
