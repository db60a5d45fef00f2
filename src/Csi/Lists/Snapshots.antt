-- ===== src/Csi/Lists/Snapshots.antt =====
-- ListSnapshots of integrations/kubernetes/controller/snapshots.go: one snapshot, the snapshots of a
-- volume, or those of all agents by pages.
use btrfs_nfs_csi.Base.{
  ℕ, ◌≡◌, refl, Bool, true, not, List, [], ◌∷◌, map, filter, Option, none, some, Bytes, codes, Dict,
  lookup, ◌=b◌, cut, if◌then◌else◌,
}
use btrfs_nfs_csi.Base.Int.{ℤ, pos}
use btrfs_nfs_csi.Client.{ListOpts, Listing, gathered, list_response}
use btrfs_nfs_csi.Csi.Ids.{make_volume_id, parse_volume_id}
use btrfs_nfs_csi.Csi.Lists.{TokenFormat, AgentEntry, list_all}

pub record SnapshotResponse : Type 0 where
  pub name : Bytes
  pub volume : Bytes
  pub size_bytes : ℕ
  pub created_at : ℕ

pub record SnapshotEntry : Type 0 where
  pub snapshot_id : Bytes
  pub source_id : Bytes
  pub size : ℕ
  pub creation_time : ℕ

-- The two lists that an agent's client gathers, in the order of their parameters.
pub record SnapshotAgent : Type 0 where
  pub of_all : ListOpts → Option (Listing SnapshotResponse)
  pub of_volume : Bytes → ListOpts → Option (Listing SnapshotResponse)

pub data SnapshotsReply : Type 0 where
  listed : List SnapshotEntry → Bytes → SnapshotsReply
  invalid_id list_failed invalid_token : SnapshotsReply

unfoldable pub snapshot_entry : Bytes → SnapshotResponse → SnapshotEntry
snapshot_entry sc s = record {
  snapshot_id = make_volume_id sc s.name;
  source_id = make_volume_id sc s.volume;
  size = s.size_bytes;
  creation_time = s.created_at;
}

-- `models.ListOpts{}`
abbrev pub no_opts : ListOpts
no_opts = record { after = []; limit = pos 0 }

unfoldable pub from_agent :
    Bytes → (SnapshotEntry → Bool) → Option (Listing SnapshotResponse) → SnapshotsReply
unfolding snapshot_entry
from_agent sc test none = list_failed
from_agent sc test (some l) = listed (filter test (map (snapshot_entry sc) l.items)) []

-- A query of one agent: without the agent the answer is empty.
unfoldable pub query_agent :
    Dict SnapshotAgent
    → Bytes
    → (SnapshotEntry → Bool)
    → (SnapshotAgent → Bytes → Option (Listing SnapshotResponse))
    → SnapshotsReply
unfolding from_agent
query_agent agents id test ask = elim (parse_volume_id id) [
  | none ↦ invalid_id
  | some (sc, name) ↦ elim (lookup sc agents) [
    | none ↦ listed [] []
    | some agent ↦ from_agent sc test (ask agent name)
  ]
]

abbrev pub entries_of_agents : Dict SnapshotAgent → List (AgentEntry SnapshotResponse)
entries_of_agents agents = map (λ (sc, a). record { sc = sc; list_items = a.of_all }) agents

paged : TokenFormat → Bytes → ℤ → Dict SnapshotAgent → SnapshotsReply
unfolding snapshot_entry
paged tokens starting_token max_entries agents =
    elim (list_all tokens starting_token max_entries (entries_of_agents agents)) [
      | none ↦ invalid_token
      | some (found, next) ↦ listed (map (λ (sc, s). snapshot_entry sc s) found) next
    ]

unfoldable pub list_snapshots :
    TokenFormat → Dict SnapshotAgent → Bytes → Bytes → Bytes → ℤ → SnapshotsReply
unfolding query_agent paged
list_snapshots tokens agents snapshot_id source_volume_id starting_token max_entries =
    if not (snapshot_id =b [])
    then query_agent agents snapshot_id (λ e. e.snapshot_id =b snapshot_id)
        (λ a name. a.of_all no_opts)
    else if not (source_volume_id =b [])
    then query_agent agents source_volume_id (λ e. true) (λ a name. a.of_volume name no_opts)
    else paged tokens starting_token max_entries agents

abbrev kept : SnapshotAgent
kept = record {
  of_all = λ opts. list_response (
      gathered
        (record { name = codes "s1"; volume = codes "db"; size_bytes = 1; created_at = 2 }
          ∷ record { name = codes "s2"; volume = codes "web"; size_bytes = 3; created_at = 4 }
          ∷ [])
        2);
  of_volume = λ name opts. list_response (gathered [] 0);
}

abbrev unused_tokens : TokenFormat
unused_tokens = record { write = λ t. []; read = λ s. none }

one_snapshot_run :
    list_snapshots unused_tokens ((codes "fast", kept) ∷ []) (codes "fast|s2") [] [] (pos 0)
    ≡ listed
        (record {
          snapshot_id = codes "fast|s2";
          source_id = codes "fast|web";
          size = 3;
          creation_time = 4;
        }
          ∷ [])
        []
unfolding list_snapshots query_agent from_agent snapshot_entry make_volume_id parse_volume_id cut
    lookup list_response ◌=b◌
one_snapshot_run = refl

-- An agent that is gone has no snapshots.
absent_run : list_snapshots unused_tokens [] (codes "fast|s2") [] [] (pos 0) ≡ listed [] []
unfolding list_snapshots query_agent parse_volume_id cut lookup ◌=b◌
absent_run = refl
