-- ===== src/Client.antt =====
-- agent/api/v1/client/client.go: lists that the client gathers page by page, and the errors that
-- agent/api/v1/models/models.go tells apart.
pub mod Gathers
mod Tests
use btrfs_nfs_csi.Base.{
  ℕ, zero, suc, ◌≡◌, refl, Bool, true, false, ◌&&◌, not, List, [], ◌∷◌, ◌++◌, Option, none, some,
  Bytes, codes, ◌=b◌, ◌==◌, Dict, lookup, insert, is_none, ltb, leb, if◌then◌else◌,
}
use btrfs_nfs_csi.Base.Int.{ℤ, pos, negsuc, is_negative, above}
use btrfs_nfs_csi.Validate.{Labels, label_created_by}

-- The two parameters of a list request that page it: `after`, where it is set, and `limit`.
pub record Query : Type 0 where
  pub after : Bytes
  pub limit : ℤ

pub record ListOpts : Type 0 where
  pub after : Bytes
  pub limit : ℤ

-- ListOpts.Query. A limit of zero is not sent, which the server reads as zero.
unfoldable pub query : ListOpts → ℤ → Query
query o default_limit =
    let asked = if is_negative o.limit then default_limit else o.limit in
    record { after = o.after; limit = if above 0 asked then asked else pos 0 }

-- One decoded page.
pub record Fetched (T : Type 0) : Type 0 where
  pub items : List T
  pub next : Bytes
  pub total : ℕ

pub data Gathered (T : Type 0) : Type 0 where
  gathered : List T → ℕ → Gathered T
  request_failed : Gathered T

-- What the loop does with a page: it fails, ends, or goes on with the next cursor.
unfoldable pub proceed :
    {T S : Type 0}
    → Option (Fetched T) × S
    → List T
    → (Bytes → List T → S → Option (Gathered T))
    → Option (Gathered T)
proceed (none, s) all go = some request_failed
proceed (some p, s) all go = elim (p.next =b []) [
  | true ↦ some (gathered (all ++ p.items) p.total)
  | false ↦ go p.next (all ++ p.items) s
]

module _ {T S : Type 0} (fetch : Bytes → S → Option (Fetched T) × S) where
  -- The sequential loop of paginate without a callback; `none` is that the fuel ran out. The first
  -- request takes the cursor of the options.
  unfoldable pub paginate : ℕ → Bytes → List T → S → Option (Gathered T)
  unfolding proceed
  paginate zero after all s = none
  paginate (suc f) after all s = proceed (fetch after s) all (paginate f)

-- The lists that ListVolumes, ListSnapshots and the others return.
pub record Listing (T : Type 0) : Type 0 where
  pub items : List T
  pub total : ℕ
  pub next : Bytes

-- The response is built from the items and the total alone; its `Next` stays empty.
unfoldable pub list_response : {T : Type 0} → Gathered T → Option (Listing T)
list_response (gathered items total) = some record { items = items; total = total; next = [] }
list_response request_failed = none

-- What comes back of a request that failed: a status of at least 400, or any other error.
pub data RequestError : Type 0 where
  agent_error : ℕ → RequestError
  other_error : RequestError

-- The error of a request without a result, by the status of the reply.
unfoldable pub request_outcome : ℕ → Option RequestError
request_outcome status = if leb 400 status then some (agent_error status) else none

unfoldable pub has_status : ℕ → RequestError → Bool
has_status code (agent_error status) = status == code
has_status code other_error = false

abbrev pub is_conflict : RequestError → Bool
is_conflict e = has_status 409 e

abbrev pub is_not_found : RequestError → Bool
is_not_found e = has_status 404 e

abbrev pub is_locked : RequestError → Bool
is_locked e = has_status 423 e

-- The result of a request, with the body that a conflict carries.
pub data Response (T : Type 0) : Type 0 where
  response : T → Response T
  conflict : T → Response T
  request_error : RequestError → Response T

-- ensureIdentity
unfoldable pub ensure_identity : Bytes → Labels → Labels
ensure_identity identity labels =
    if is_none (lookup label_created_by labels)
    then insert label_created_by identity labels
    else labels
