-- ===== src/Csi/Lists.antt =====
-- ListVolumes of integrations/kubernetes/controller/volumes.go, and the query of several agents in
-- ListSnapshots of snapshots.go, with the page tokens of utils.go.
pub mod Short
pub mod Snapshots
mod Tests
use btrfs_nfs_csi.Base.{
  ℕ, ◌-◌, ◌≡◌, refl, Bool, true, false, not, ◌&&◌, ◌||◌, List, [], ◌∷◌, ◌++◌, map, Option, none,
  some, Bytes, codes, ◌=b◌, length, leb, ltb, leb_bytes, if◌then◌else◌,
}
use btrfs_nfs_csi.Base.Int.{ℤ, pos, negsuc, above}
use btrfs_nfs_csi.Client.{ListOpts, Listing}
use btrfs_nfs_csi.Csi.Ids.{make_volume_id}

pub record PageToken : Type 0 where
  pub sc : Bytes
  pub after : Bytes

-- JSON and base64 of a page token. What reads a token may refuse it.
pub record TokenFormat : Type 0 where
  pub write : PageToken → Bytes
  pub read : Bytes → Option PageToken

abbrev pub no_token : PageToken
no_token = record { sc = []; after = [] }

-- `none` is the error ABORTED.
unfoldable pub decode_page_token : TokenFormat → Bytes → Option PageToken
decode_page_token tokens token = if token =b [] then some no_token else tokens.read token

-- `<` on Go strings.
abbrev pub less : Bytes → Bytes → Bool
less s t = not (leb_bytes t s)

-- An agent that a storage class names, with what it answers to a list request: the client's result,
-- or an error.
pub record AgentEntry (T : Type 0) : Type 0 where
  pub sc : Bytes
  pub list_items : ListOpts → Option (Listing T)

-- The items of the response with the storage class of each, and the next token.
abbrev pub Entries : Type 0 → Type 0
Entries T = List (Bytes × T) × Bytes

module _ {T : Type 0} where
  insert_agent : AgentEntry T → List (AgentEntry T) → List (AgentEntry T)
  insert_agent a [] = a ∷ []
  insert_agent a (b ∷ agents) =
      let rest = insert_agent a agents in if leb_bytes a.sc b.sc then a ∷ b ∷ agents else b ∷ rest

  -- slices.SortFunc by the name of the storage class.
  unfoldable pub sorted_agents : List (AgentEntry T) → List (AgentEntry T)
  unfolding insert_agent
  sorted_agents [] = []
  sorted_agents (a ∷ agents) = insert_agent a (sorted_agents agents)

  -- `limit -= len(items)`, where the limit is positive, down to zero, below which it is not read.
  abbrev pub remaining : ℤ → List T → ℤ
  remaining (pos n) items = pos (n - length items)
  remaining (negsuc n) items = negsuc n

  -- `limit > 0`, and what is left of it is not.
  unfoldable pub used_up : ℤ → List T → Bool
  used_up limit items = above 0 limit && not (above 0 (remaining limit items))

  unfoldable pub list_opts : PageToken → ℤ → AgentEntry T → ListOpts
  list_opts pt limit a = record { after = if a.sc =b pt.sc then pt.after else []; limit = limit }

  abbrev pub tagged : Bytes → List T → List (Bytes × T)
  tagged sc items = map (λ x. (sc, x)) items

  abbrev pub in_front : List (Bytes × T) → Entries T → Entries T
  in_front front (entries, next) = (front ++ entries, next)

  -- The rest of a round, from the answer of an agent. `later` is the loop over the other agents.
  unfoldable pub answered :
      TokenFormat → Bytes → ℤ → Option (Listing T) → (ℤ → Entries T) → Entries T
  answered tokens sc limit none later = later limit
  answered tokens sc limit (some l) later =
      if not (l.next =b [])
      then (tagged sc l.items, tokens.write record { sc = sc; after = l.next })
      else if used_up limit l.items
      then (tagged sc l.items, [])
      else in_front (tagged sc l.items) (later (remaining limit l.items))

  -- `pt.SC != "" && a.sc < pt.SC`
  unfoldable pub skipped : PageToken → AgentEntry T → Bool
  skipped pt a = not (pt.sc =b []) && less a.sc pt.sc

  unfoldable pub list_agents : TokenFormat → PageToken → List (AgentEntry T) → ℤ → Entries T
  unfolding answered
  list_agents tokens pt [] limit = ([], [])
  list_agents tokens pt (a ∷ agents) limit = elim (skipped pt a) [
    | true ↦ list_agents tokens pt agents limit
    | false ↦
        answered tokens a.sc limit (a.list_items (list_opts pt limit a))
          (list_agents tokens pt agents)
  ]

  -- The response, or the error ABORTED.
  unfoldable pub list_all : TokenFormat → Bytes → ℤ → List (AgentEntry T) → Option (Entries T)
  list_all tokens starting_token max_entries agents =
      elim (decode_page_token tokens starting_token) [
        | none ↦ none
        | some pt ↦ some (list_agents tokens pt (sorted_agents agents) max_entries)
      ]

pub record VolumeResponse : Type 0 where
  pub name : Bytes
  pub size_bytes : ℕ

-- An entry of ListVolumes: the volume's id and its capacity.
abbrev volume_entry : Bytes × VolumeResponse → Bytes × ℕ
volume_entry (sc, v) = (make_volume_id sc v.name, v.size_bytes)

unfoldable pub list_volumes :
    TokenFormat → Bytes → ℤ → List (AgentEntry VolumeResponse) → Option (List (Bytes × ℕ) × Bytes)
list_volumes tokens starting_token max_entries agents =
    elim (list_all tokens starting_token max_entries agents) [
      | none ↦ none
      | some (entries, next) ↦ some (map volume_entry entries, next)
    ]
