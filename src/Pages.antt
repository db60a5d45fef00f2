-- ===== src/Pages.antt =====
-- agent/api/v1/handler.go and labels.go: lists by pages, over snapshots of the list that the
-- handler keeps, and the filter by labels.
pub mod Cover
pub mod Tests
use btrfs_nfs_csi.Base.{
  ℕ, zero, suc, ◌+◌, ◌-◌, ◌≡◌, ◌≢◌, Bool, true, false, not, ◌&&◌, ◌||◌, List, [], ◌∷◌, ◌++◌, map,
  filter, all, take, drop, length, Option, none, some, Bytes, Dict, ◌=b◌, cut, lookup, insert,
  delete, ltb, leb, is_none, if◌then◌else◌, min,
}
use btrfs_nfs_csi.Base.Int.{ℤ, pos, negsuc, to_ℕ, is_negative}
use btrfs_nfs_csi.Strconv.{format, atoi}
use btrfs_nfs_csi.Validate.{Labels}

-- What the code relies on of base64.RawURLEncoding.
pub record Base64 : Type 0 where
  pub encode : Bytes → Bytes
  pub decode : Bytes → Option Bytes
  pub decode-encode : (s : Bytes) → decode (encode s) ≡ some s
  pub decode-nil : decode [] ≡ some []
  pub encode-cons : (c : ℕ) (s : Bytes) → (encode (c ∷ s) =b []) ≡ false

-- The test of one filter, `key` or `key=value`.
abbrev pub matches_one : Labels → Bytes → Bool
matches_one labels f = elim (cut b'=' f) [
  | none ↦ not (is_none (lookup f labels))
  | some (k, v) ↦ elim (lookup k labels) [ none ↦ false | some found ↦ found =b v ]
]

unfoldable pub match_labels : Labels → List Bytes → Bool
match_labels [] filters = leb (length filters) 0
match_labels (l ∷ labels) filters = all (matches_one (l ∷ labels)) filters

unfoldable pub filter_by_labels : {T : Type 0} → (T → Labels) → List T → List Bytes → List T
filter_by_labels labels_of items filters = filter (λ x. match_labels (labels_of x) filters) items

pub record PageCursor : Type 0 where
  pub snap_id : Bytes
  pub offset : ℤ

-- `%d` of an int.
abbrev pub format_int : ℤ → Bytes
format_int (pos n) = format 10 n
format_int (negsuc n) = b'-' ∷ format 10 (suc n)

unfoldable pub encode_cursor : Base64 → PageCursor → Bytes
encode_cursor base64 c = base64.encode (c.snap_id ++ b':' ∷ format_int c.offset)

abbrev pub parse_cursor : Bytes → Option PageCursor
parse_cursor raw = elim (cut b':' raw) [
  | none ↦ none
  | some (id, offset_str) ↦ elim (atoi offset_str) [
    | none ↦ none
    | some offset ↦ some (record { snap_id = id; offset = offset })
  ]
]

unfoldable pub decode_cursor : Base64 → Bytes → Option PageCursor
decode_cursor base64 s = elim (base64.decode s) [ none ↦ none | some raw ↦ parse_cursor raw ]

-- A stored page snapshot, of the type that the request lists or of another.
pub data PageSnapshot (T : Type 0) : Type 0 where
  items_of : List T → PageSnapshot T
  other_type : PageSnapshot T

pub record Handler (T : Type 0) : Type 0 where
  pub default_page_limit : ℤ
  pub max_snapshots : ℕ
  pub page_snapshots : Dict (PageSnapshot T)
  pub snapshot_count : ℕ

-- Handler.deleteSnapshot, which the timer of a snapshot calls.
unfoldable pub delete_snapshot : {T : Type 0} → Bytes → Handler T → Handler T
delete_snapshot id h = if is_none (lookup id h.page_snapshots) then h else record h {
  page_snapshots = delete id h.page_snapshots;
  snapshot_count = h.snapshot_count - 1;
}

-- The answer: items, the total, the next cursor, or the panic of a slice with a negative bound.
pub data Page (R : Type 0) : Type 0 where
  page : List R → ℕ → Bytes → Page R
  panics : Page R

module _ {T R : Type 0} (base64 : Base64) (map_fn : T → R) where
  -- The end of paginatedList, from `total := len(snap)`.
  unfoldable pub serve : List T → ℤ → ℤ → Bytes → Page R
  serve snap (negsuc n) limit id = panics
  serve snap (pos o) limit id =
      if leb (length snap) o
      then page [] (length snap) []
      else if ltb 0 (to_ℕ limit) && ltb (to_ℕ limit) (length (drop o snap))
      then page (map map_fn (take (to_ℕ limit) (drop o snap))) (length snap)
          (encode_cursor base64 (record { snap_id = id; offset = pos (o + to_ℕ limit) }))
      else page (map map_fn (drop o snap)) (length snap) []

  -- The snapshot that a cursor names.
  unfoldable pub find_snapshot : Handler T → Bytes → Option (List T × PageCursor)
  find_snapshot h after = elim (decode_cursor base64 after) [
    | none ↦ none
    | some cur ↦ elim (lookup cur.snap_id h.page_snapshots) [
      | none ↦ none
      | some (items_of snap) ↦ some (snap, cur)
      | some other_type ↦ none
    ]
  ]

  abbrev pub whole : List T → Page R
  whole items = page (map map_fn items) (length items) []

  abbrev pub first_page : Bytes → Handler T → ℤ → List T → Page R × Handler T
  first_page snap_id h limit items =
      if leb (to_ℕ limit) 0 || leb (length items) (to_ℕ limit)
      then (whole items, h)
      else if leb h.max_snapshots h.snapshot_count
      then (whole items, h)
      else (
        serve items (pos 0) limit snap_id,
        record h {
          page_snapshots = insert snap_id (items_of items) h.page_snapshots;
          snapshot_count = suc h.snapshot_count;
        },
      )

  abbrev pub from_snapshot :
      Bytes → Handler T → ℤ → List T → Option (List T × PageCursor) → Page R × Handler T
  from_snapshot snap_id h limit items none = first_page snap_id h limit items
  from_snapshot snap_id h limit items (some (snap, cur)) =
      (serve snap cur.offset limit cur.snap_id, h)

  -- paginatedList, with the id that generateSnapID makes. `limit` is what strconv.Atoi returns.
  unfoldable pub paginated_list :
      (T → Labels) → Bytes → Handler T → Bytes → ℤ → List Bytes → List T → Page R × Handler T
  unfolding find_snapshot
  paginated_list labels_of snap_id h after asked filters all_items =
      let limit = if is_negative asked then h.default_page_limit else asked in
      let items =
        if ltb 0 (length filters)
        then filter_by_labels labels_of all_items filters
        else all_items in
      if leb (to_ℕ limit) 0 && (after =b [])
      then (whole items, h)
      else from_snapshot snap_id h limit items (find_snapshot h after)
