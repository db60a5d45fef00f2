-- ===== src/Client/Gathers.antt =====
-- paginate of agent/api/v1/client/client.go against paginatedList of agent/api/v1/handler.go.
use mathlib.Core.List.{append_assoc}
use btrfs_nfs_csi.Base.{
  drop-add, map-take-drop, ltb→le, ltb→lt, ℕ, zero, suc, ◌+◌, ◌^◌, ◌≤◌, ◌<◌, ◌≡◌, refl, sym, ap,
  ◌∙◌, false, List, [], ◌++◌, map, take, drop, length, Option, none, some, Bytes, ◌=b◌, Lacks,
  lookup, ltb, leb, arith, Bool-cases, inl, inr,
}
use btrfs_nfs_csi.Base.Int.{pos}
use btrfs_nfs_csi.Validate.{Labels}
use btrfs_nfs_csi.Pages.{Base64, items_of, Handler, Page, page, panics, paginated_list}
use btrfs_nfs_csi.Pages.Cover.{
  cursor_at, cursor-ne-nil, from_cursor, served-more, served-last, keeping, kept_there, from_start,
}
use btrfs_nfs_csi.Client.{Fetched, gathered, proceed, paginate}

-- A page as the client decodes it. A handler that panics is answered by an error status.
abbrev pub decoded : {R : Type 0} → Page R → Option (Fetched R)
decoded (page items total next) = some record { items = items; next = next; total = total }
decoded panics = none

module _ {T R : Type 0} (base64 : Base64) (map_fn : T → R) (labels_of : T → Labels) (l : ℕ)
    (ids : ℕ → Bytes) (lists : ℕ → List T) where
  -- The handler behind a request, with a limit of `suc l`. The list that it reads at each time is
  -- another one, and so is the id that it would make.
  abbrev pub ask : Bytes → ℕ × Handler T → Option (Fetched R) × (ℕ × Handler T)
  ask after (t, h) =
      let answer =
        paginated_list base64 map_fn labels_of (ids t) h after (pos (suc l)) [] (lists t) in
      (decoded answer.0, (suc t, answer.1))

  rejoined :
      (all : List R) (snap : List T) (o : ℕ)
      → some (
          gathered
            ((all ++ map map_fn (take (suc l) (drop o snap))) ++ map map_fn (drop (o + suc l) snap))
            (length snap))
        ≡ some (gathered (all ++ map map_fn (drop o snap)) (length snap))
  rejoined all snap o =
      ap (λ items. some (gathered items (length snap)))
        (append_assoc all _ _
          ∙ ap (λ items. all ++ items)
              (rw (drop-add o (suc l) snap) (sym (map-take-drop map_fn (suc l) (drop o snap)))))

  paginate-drop :
      (n t : ℕ) (h : Handler T) (id : Bytes) (o : ℕ) (snap : List T) (all : List R)
      → lookup id h.page_snapshots ≡ some (items_of snap)
      → Lacks b':' id
      → length snap < 2 ^ 63
      → o < length snap
      → length snap < n + o
      → paginate ask n (cursor_at base64 map_fn labels_of l id o) all (t, h)
        ≡ some (gathered (all ++ map map_fn (drop o snap)) (length snap))
  unfolding paginate ◌=b◌
  paginate-drop zero t h id o snap all stored no_colon small inside fuel = absurd (omega arith)
  paginate-drop (suc n) t h id o snap all stored no_colon small inside fuel =
      let first =
        from_cursor base64 map_fn labels_of l (ids t) id o snap (lists t) h stored no_colon
          (omega arith) in
      elim (Bool-cases (ltb (o + suc l) (length snap))) [
        | inl long ↦
            let more = ltb→lt _ _ long in
            let shown = served-more base64 map_fn labels_of l snap o id more in
            let read = first ∙ ap (λ a. (a, h)) shown in
            let later =
              paginate-drop n (suc t) h id (o + suc l) snap
                (all ++ map map_fn (take (suc l) (drop o snap))) stored no_colon small more
                (omega arith) in
            rw (paginate, read, proceed, cursor-ne-nil base64 map_fn labels_of l id (o + suc l))
              (later ∙ rejoined all snap o)
        | inr short ↦
            let shown = served-last base64 map_fn labels_of l snap o id inside (ltb→le _ _ short) in
            let read = first ∙ ap (λ a. (a, h)) shown in rw (paginate, read, proceed) refl
      ]

  -- The client's loop ends, with every item of the list that its first request read, in order, and
  -- with their number, whatever the list is at its later requests, within one round more than there
  -- are items. The id of the page snapshot has no colon, and the snapshot is not dropped meanwhile.
  pub paginate-gathers :
      (n t : ℕ) (h : Handler T)
      → Lacks b':' (ids t)
      → length (lists t) < 2 ^ 63
      → length (lists t) ≤ n
      → paginate ask (suc n) [] [] (t, h)
        ≡ some (gathered (map map_fn (lists t)) (length (lists t)))
  unfolding paginate ◌=b◌
  paginate-gathers n t h no_colon small fuel =
      let items = lists t in
      let start = from_start base64 map_fn labels_of l (ids t) items h in
      let some_limit : leb (suc l) 0 ≡ false = ground arith in
      elim (Bool-cases (leb (length items) (suc l))) [
        | inl short ↦ rw (paginate, start, some_limit, short, proceed) refl
        | inr long ↦ elim (Bool-cases (leb h.max_snapshots h.snapshot_count)) [
          | inl full ↦ rw (paginate, start, some_limit, long, full, proceed) refl
          | inr free ↦
              let more : 0 + suc l < length items = ground (arith, long) in
              let shown = served-more base64 map_fn labels_of l items 0 (ids t) more in
              let kept = keeping base64 map_fn labels_of l (ids t) items h in
              let later =
                paginate-drop n (suc t) kept (ids t) (0 + suc l) items
                  (map map_fn (take (suc l) items))
                  (kept_there base64 map_fn labels_of l (ids t) items h) no_colon small more
                  (omega arith) in
              rw
                (
                  paginate,
                  start,
                  some_limit,
                  long,
                  free,
                  shown,
                  proceed,
                  cursor-ne-nil base64 map_fn labels_of l (ids t) (0 + suc l),
                )
                (later ∙ rejoined [] items 0)
        ]
      ]
