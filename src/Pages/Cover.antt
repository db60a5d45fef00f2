-- ===== src/Pages/Cover.antt =====
-- A client that follows the cursors gets the list of its first request, whole and in order.
use btrfs_nfs_csi.Base.{
  drop-add, map-take-drop, append-nil, ltb→le, ℕ, zero, suc, ◌+◌, ◌-◌, ◌^◌, ◌≤◌, ◌<◌, ◌≡◌, refl,
  sym, true, false, List, [], ◌∷◌, ◌++◌, map, take, drop, length, some, Bytes, ◌=b◌, eq_refl, cut,
  cut-append, Lacks, lookup, insert, lookup-insert, ltb, leb, if◌then◌else◌, arith, Bool-cases,
  ltb→lt, inl, inr, length-drop,
}
use btrfs_nfs_csi.Base.Int.{pos, negsuc}
use btrfs_nfs_csi.Strconv.{format}
use btrfs_nfs_csi.Strconv.RoundTrip.{atoi-format, atoi-format_negative}
use btrfs_nfs_csi.Validate.{Labels}
use btrfs_nfs_csi.Pages.{
  Base64, encode_cursor, decode_cursor, parse_cursor, format_int, items_of, Handler, Page, page,
  panics, serve, find_snapshot, first_page, paginated_list,
}

-- A cursor that was given out is read back.
pub decode_cursor-encode_cursor :
    (base64 : Base64) (id : Bytes) (o : ℕ)
    → Lacks b':' id
    → o < 2 ^ 63
    → decode_cursor base64 (encode_cursor base64 (record { snap_id = id; offset = pos o }))
      ≡ some (record { snap_id = id; offset = pos o })
unfolding decode_cursor encode_cursor
decode_cursor-encode_cursor base64 id o no_colon small =
    rw
      (
        base64.decode-encode (id ++ b':' ∷ format 10 o),
        decode_cursor,
        cut-append b':' id (format 10 o) no_colon,
        parse_cursor,
        atoi-format o small,
        parse_cursor,
      )
      refl

decode_cursor-negative :
    (base64 : Base64) (id : Bytes) (m : ℕ)
    → Lacks b':' id
    → suc m ≤ 2 ^ 63
    → decode_cursor base64 (encode_cursor base64 (record { snap_id = id; offset = negsuc m }))
      ≡ some (record { snap_id = id; offset = negsuc m })
unfolding decode_cursor encode_cursor
decode_cursor-negative base64 id m no_colon small =
    rw
      (
        base64.decode-encode (id ++ b':' ∷ format_int (negsuc m)),
        decode_cursor,
        cut-append b':' id (format_int (negsuc m)) no_colon,
        parse_cursor,
        atoi-format_negative m small,
        parse_cursor,
      )
      refl

abbrev pub items_in : {R : Type 0} → Page R → List R
items_in (page items total next) = items
items_in panics = []

abbrev pub next_of : {R : Type 0} → Page R → Bytes
next_of (page items total next) = next
next_of panics = []

module _ {T R : Type 0} (base64 : Base64) (map_fn : T → R) (labels_of : T → Labels) (l : ℕ) where
  -- The items of the pages that a client gets, who asks for `suc l` items each time and goes on with
  -- the cursor of the last answer. The list that the handler would read is another one each time,
  -- and so is the id that it would make.
  unfoldable pub walk : ℕ → (ℕ → Bytes) → (ℕ → List T) → Handler T → Bytes → List R
  walk zero ids lists h after = []
  walk (suc n) ids lists h after =
      let answer =
        paginated_list base64 map_fn labels_of (ids n) h after (pos (suc l)) [] (lists n) in
      let rest = walk n ids lists answer.1 (next_of answer.0) in
      items_in answer.0 ++ (if next_of answer.0 =b [] then [] else rest)

  abbrev pub cursor_at : Bytes → ℕ → Bytes
  cursor_at id o = encode_cursor base64 (record { snap_id = id; offset = pos o })

  pub cursor-ne-nil : (id : Bytes) (o : ℕ) → (cursor_at id o =b []) ≡ false
  unfolding encode_cursor
  cursor-ne-nil [] o = base64.encode-cons b':' (format 10 o)
  cursor-ne-nil (c ∷ id) o = base64.encode-cons c (id ++ b':' ∷ format 10 o)

  -- A request with a cursor of a stored snapshot is served from it.
  pub from_cursor :
      (new_id id : Bytes) (o : ℕ) (snap items : List T) (h : Handler T)
      → lookup id h.page_snapshots ≡ some (items_of snap)
      → Lacks b':' id
      → o < 2 ^ 63
      → paginated_list base64 map_fn labels_of new_id h (cursor_at id o) (pos (suc l)) [] items
        ≡ (serve base64 map_fn snap (pos o) (pos (suc l)) id, h)
  unfolding paginated_list find_snapshot
  from_cursor new_id id o snap items h stored no_colon small =
      let some_limit : leb (suc l) 0 ≡ false = ground arith in
      rw
        (
          decode_cursor-encode_cursor base64 id o no_colon small,
          find_snapshot,
          stored,
          find_snapshot,
          some_limit,
        )
        refl

  abbrev pub served : List T → ℕ → Bytes → Page R
  served snap o id = serve base64 map_fn snap (pos o) (pos (suc l)) id

  pub served-more :
      (snap : List T) (o : ℕ) (id : Bytes)
      → o + suc l < length snap
      → served snap o id
        ≡ page (map map_fn (take (suc l) (drop o snap))) (length snap) (cursor_at id (o + suc l))
  unfolding serve
  served-more snap o id more =
      let inside : leb (length snap) o ≡ false = ground arith in
      let left : length (drop o snap) ≡ length snap - o = length-drop o snap in
      let limited : ltb 0 (suc l) ≡ true = ground arith in
      let enough : ltb (suc l) (length snap - o) ≡ true = ground arith in
      rw (inside, left, limited, enough) refl

  pub served-last :
      (snap : List T) (o : ℕ) (id : Bytes)
      → o < length snap
      → length snap ≤ o + suc l
      → served snap o id ≡ page (map map_fn (drop o snap)) (length snap) []
  unfolding serve
  served-last snap o id some_left few =
      let inside : leb (length snap) o ≡ false = ground arith in
      let left : length (drop o snap) ≡ length snap - o = length-drop o snap in
      let limited : ltb 0 (suc l) ≡ true = ground arith in
      let enough : ltb (suc l) (length snap - o) ≡ false = ground arith in
      rw (inside, left, limited, enough) refl

  -- The items of the page that is served, and what follows them.
  serve-step :
      (snap : List T) (o : ℕ) (id : Bytes) (rest : List R)
      → o < length snap
      → (o + suc l < length snap
          → next_of (served snap o id) ≡ cursor_at id (o + suc l)
          → rest ≡ map map_fn (drop (o + suc l) snap))
      → items_in (served snap o id) ++ (if next_of (served snap o id) =b [] then [] else rest)
        ≡ map map_fn (drop o snap)
  unfolding ◌=b◌
  serve-step snap o id rest some_left later = elim (Bool-cases (ltb (o + suc l) (length snap))) [
    | inl long ↦
        let more : o + suc l < length snap = ltb→lt _ _ long in
        let shown = served-more snap o id more in
        rw
          (shown, cursor-ne-nil id (o + suc l), later more (rw shown refl), drop-add o (suc l) snap)
          (sym (map-take-drop map_fn (suc l) (drop o snap)))
    | inr short ↦
        rw (served-last snap o id some_left (ltb→le _ _ short))
          (append-nil (map map_fn (drop o snap)))
  ]

  walk-drop :
      (n : ℕ) (ids : ℕ → Bytes) (lists : ℕ → List T) (h : Handler T) (id : Bytes) (o : ℕ)
      (snap : List T)
      → lookup id h.page_snapshots ≡ some (items_of snap)
      → Lacks b':' id
      → length snap < 2 ^ 63
      → o < length snap
      → length snap < n + o
      → walk n ids lists h (cursor_at id o) ≡ map map_fn (drop o snap)
  unfolding walk
  walk-drop zero ids lists h id o snap stored no_colon small inside fuel = absurd (omega arith)
  walk-drop (suc n) ids lists h id o snap stored no_colon small inside fuel =
      rw (from_cursor (ids n) id o snap (lists n) h stored no_colon (omega arith)) (
        serve-step snap o id (walk n ids lists h (next_of (served snap o id))) inside λ more next.
          rw next
            (walk-drop n ids lists h id (o + suc l) snap stored no_colon small more (omega arith)))

  -- The handler with one page snapshot more.
  abbrev pub keeping : Bytes → List T → Handler T → Handler T
  keeping id items h = record h {
    page_snapshots = insert id (items_of items) h.page_snapshots;
    snapshot_count = suc h.snapshot_count;
  }

  pub kept_there :
      (id : Bytes) (items : List T) (h : Handler T)
      → lookup id (keeping id items h).page_snapshots ≡ some (items_of items)
  kept_there id items h =
      rw (lookup-insert id id (items_of items) h.page_snapshots, eq_refl id) refl

  -- The first request, which has no cursor.
  pub from_start :
      (new_id : Bytes) (items : List T) (h : Handler T)
      → paginated_list base64 map_fn labels_of new_id h [] (pos (suc l)) [] items
        ≡ first_page base64 map_fn new_id h (pos (suc l)) items
  unfolding paginated_list find_snapshot decode_cursor cut
  from_start new_id items h =
      let some_limit : leb (suc l) 0 ≡ false = ground arith in
      rw (some_limit, base64.decode-nil, find_snapshot, some_limit) refl

  -- A client that asks for pages of some size and follows the cursors gets every item of the list
  -- that its first request read, once and in order, whatever the list is at its later requests. The
  -- id of the page snapshot has no colon, there are at least as many requests as items, and the page
  -- snapshot is not dropped meanwhile.
  pub walk-cover :
      (n : ℕ) (ids : ℕ → Bytes) (lists : ℕ → List T) (h : Handler T)
      → Lacks b':' (ids n)
      → length (lists n) < 2 ^ 63
      → length (lists n) ≤ n
      → walk (suc n) ids lists h [] ≡ map map_fn (lists n)
  unfolding walk ◌=b◌
  walk-cover n ids lists h no_colon small fuel =
      let items = lists n in
      let some_limit : leb (suc l) 0 ≡ false = ground arith in
      elim (Bool-cases (leb (length items) (suc l))) [
        | inl short ↦
            rw (from_start (ids n) items h, some_limit, short) (append-nil (map map_fn items))
        | inr long ↦ elim (Bool-cases (leb h.max_snapshots h.snapshot_count)) [
          | inl full ↦
              rw (from_start (ids n) items h, some_limit, long, full)
                (append-nil (map map_fn items))
          | inr free ↦
              let some_left : 0 < length items = ground arith in
              rw (from_start (ids n) items h, some_limit, long, free)
                (serve-step items 0 (ids n)
                  (walk n ids lists (keeping (ids n) items h) (next_of (served items 0 (ids n))))
                  some_left
                  λ more next. rw next (
                    walk-drop n ids lists (keeping (ids n) items h) (ids n) (0 + suc l) items
                      (kept_there (ids n) items h) no_colon small more (omega arith)))
        ]
      ]

  stored_negative :
      (new_id after id : Bytes) (m : ℕ) (snap items : List T) (h : Handler T)
      → decode_cursor base64 after ≡ some (record { snap_id = id; offset = negsuc m })
      → lookup id h.page_snapshots ≡ some (items_of snap)
      → (paginated_list base64 map_fn labels_of new_id h after (pos (suc l)) [] items).0 ≡ panics
  unfolding paginated_list find_snapshot serve
  stored_negative new_id after id m snap items h read stored =
      let some_limit : leb (suc l) 0 ≡ false = ground arith in
      rw (some_limit, read, find_snapshot, stored, find_snapshot) refl

  -- A client that changes the offset of the cursor that it was given to a negative one makes the
  -- handler panic: where its first request stores a page snapshot, whose id has no colon, a request with
  -- such a cursor of that id does, whatever the list is then. The list is longer than a page, there is
  -- room for a page snapshot, and the offset is an int.
  pub negative_cursor-panics :
      (new_id later_id : Bytes) (m : ℕ) (items later : List T) (h : Handler T)
      → Lacks b':' new_id
      → suc m ≤ 2 ^ 63
      → suc l < length items
      → h.snapshot_count < h.max_snapshots
      → (let once = paginated_list base64 map_fn labels_of new_id h [] (pos (suc l)) [] items in
          (paginated_list base64 map_fn labels_of later_id once.1
            (encode_cursor base64 (record { snap_id = new_id; offset = negsuc m }))
            (pos (suc l))
            []
            later).0
          ≡ panics)
  negative_cursor-panics new_id later_id m items later h no_colon small long room =
      let some_limit : leb (suc l) 0 ≡ false = ground arith in
      let more : leb (length items) (suc l) ≡ false = ground arith in
      let free : leb h.max_snapshots h.snapshot_count ≡ false = ground arith in
      rw (from_start new_id items h, some_limit, more, free)
        (stored_negative later_id _ new_id m items later (keeping new_id items h)
          (decode_cursor-negative base64 new_id m no_colon small) (kept_there new_id items h))
