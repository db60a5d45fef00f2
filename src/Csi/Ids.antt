-- ===== src/Csi/Ids.antt =====
-- integrations/kubernetes/csiserver/utils.go: volume and node identifiers.
use btrfs_nfs_csi.Base.{
  ◌≡◌, refl, sym, ◌≢◌, ◌||◌, [], ◌∷◌, ◌++◌, Option, none, some, Bytes, ◌=b◌, eq_iff, eq_ne, cut,
  cut-append, cut_sound, Lacks, if◌then◌else◌, arith,
}

unfoldable pub make_volume_id : Bytes → Bytes → Bytes
make_volume_id storage_class name = storage_class ++ b'|' ∷ name

-- `none` is the error.
unfoldable pub parse_volume_id : Bytes → Option (Bytes × Bytes)
parse_volume_id id = elim (cut b'|' id) [
  | none ↦ none
  | some (sc, n) ↦ if sc =b [] || n =b [] then none else some (sc, n)
]

unfoldable pub make_node_id : Bytes → Bytes → Bytes
make_node_id hostname ip = hostname ++ b'|' ∷ ip

unfoldable pub parse_node_id : Bytes → Option (Bytes × Bytes)
parse_node_id id = elim (cut b'|' id) [
  | none ↦ none
  | some (h, i) ↦ if i =b [] then none else some (h, i)
]

-- The identifier of a volume parses back to its storage class and its name, where neither is empty
-- and the storage class holds no bar.
pub parse_volume_id-make_volume_id :
    (sc name : Bytes)
    → Lacks b'|' sc
    → sc ≢ []
    → name ≢ []
    → parse_volume_id (make_volume_id sc name) ≡ some (sc, name)
unfolding parse_volume_id make_volume_id
parse_volume_id-make_volume_id sc name no_bar class named =
    rw (cut-append b'|' sc name no_bar, parse_volume_id, eq_ne sc [] class, eq_ne name [] named)
      refl

parse_volume_id-cut :
    (id sc name : Bytes)
    → parse_volume_id id ≡ some (sc, name)
    → (cut b'|' id ≡ some (sc, name)) × (sc ≢ []) × (name ≢ [])
unfolding parse_volume_id
parse_volume_id-cut id sc name h = ground (arith, eq_iff sc [], eq_iff name [])

-- An identifier that parses is the identifier of what it parses to, the two parts are not empty,
-- and the storage class holds no bar.
pub make_volume_id-parse_volume_id :
    (id sc name : Bytes)
    → parse_volume_id id ≡ some (sc, name)
    → (make_volume_id sc name ≡ id) × (sc ≢ []) × (name ≢ []) × Lacks b'|' sc
unfolding make_volume_id
make_volume_id-parse_volume_id id sc name h =
    let (found, class, named) = parse_volume_id-cut id sc name h in
    let (whole, no_bar) = cut_sound b'|' id sc name found in (sym whole, class, named, no_bar)

-- A node identifier parses back for every host name without a bar and every address.
pub parse_node_id-make_node_id :
    (hostname ip : Bytes)
    → Lacks b'|' hostname
    → ip ≢ []
    → parse_node_id (make_node_id hostname ip) ≡ some (hostname, ip)
unfolding parse_node_id make_node_id
parse_node_id-make_node_id hostname ip no_bar address =
    rw (cut-append b'|' hostname ip no_bar, parse_node_id, eq_ne ip [] address) refl
