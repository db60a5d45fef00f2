-- ===== src/Csi/Lists/Tests.antt =====
-- Two agents behind the CSI controller.
use btrfs_nfs_csi.Base.{◌≡◌, refl, List, [], ◌∷◌, none, some, codes, ◌=b◌, cut, leb_bytes, arith}
use Prim.Native.String.{String}
use btrfs_nfs_csi.Base.Int.{pos}
use btrfs_nfs_csi.Client.{gathered, list_response}
use btrfs_nfs_csi.Csi.Ids.{make_volume_id}
use btrfs_nfs_csi.Csi.Lists.{
  TokenFormat, AgentEntry, VolumeResponse, sorted_agents, list_all, list_volumes, list_agents,
  decode_page_token, list_opts, skipped, used_up, answered,
}
use btrfs_nfs_csi.Csi.Lists.Short.{
  UsesClient, list_response-next, all_items, list_all_complete, list_all-cut,
}

abbrev bar_tokens : TokenFormat
bar_tokens = record {
  write = λ t. make_volume_id t.sc t.after;
  read = λ s. elim (cut b'|' s) [ none ↦ none | some (a, b) ↦ some record { sc = a; after = b } ];
}

abbrev volume : String → VolumeResponse
volume name = record { name = codes name; size_bytes = 1 }

abbrev agent : String → List VolumeResponse → AgentEntry VolumeResponse
agent name volumes = record {
  sc = codes name;
  list_items = λ opts. list_response (gathered volumes 0);
}

abbrev fast : AgentEntry VolumeResponse
fast = agent "fast" (volume "a" ∷ volume "b" ∷ [])

abbrev slow : AgentEntry VolumeResponse
slow = agent "slow" (volume "c" ∷ [])

uses_client : (name : String) (volumes : List VolumeResponse) → UsesClient (agent name volumes)
uses_client name volumes opts l h = list_response-next (gathered volumes 0) l h

list_all_complete_run :
    list_all bar_tokens [] (pos 0) (slow ∷ fast ∷ [])
    ≡ some (all_items (sorted_agents (slow ∷ fast ∷ [])), [])
unfolding sorted_agents leb_bytes
list_all_complete_run =
    list_all_complete bar_tokens (slow ∷ fast ∷ []) (
      uses_client "fast" (volume "a" ∷ volume "b" ∷ []),
      (uses_client "slow" (volume "c" ∷ []), tt),
    )

list_all-cut_example :
    list_all bar_tokens [] (pos 1) (slow ∷ fast ∷ [])
    ≡ some ((codes "fast", volume "a") ∷ (codes "fast", volume "b") ∷ [], [])
unfolding sorted_agents leb_bytes list_response
list_all-cut_example =
    list_all-cut bar_tokens 0 (slow ∷ fast ∷ []) (slow ∷ []) fast
      record { items = volume "a" ∷ volume "b" ∷ []; total = 0; next = [] } refl
      (uses_client "fast" (volume "a" ∷ volume "b" ∷ [])) refl (omega arith)

-- A page of one entry holds two, and the volume of the other agent is on no page.
list_volumes_runs :
    list_volumes bar_tokens [] (pos 1) (slow ∷ fast ∷ [])
    ≡ some ((codes "fast|a", 1) ∷ (codes "fast|b", 1) ∷ [], [])
unfolding list_volumes list_all sorted_agents leb_bytes list_response list_agents decode_page_token
    list_opts skipped used_up make_volume_id answered ◌=b◌
list_volumes_runs = refl
