-- ===== src/Csi/Lists/Short.antt =====
-- What the lists of integrations/kubernetes/controller say when the agents' client never returns a
-- cursor, as it gathers all pages by itself.
use btrfs_nfs_csi.Base.{
  ℕ, suc, ◌-◌, ◌≤◌, ◌≡◌, refl, sym, ap, true, List, [], ◌∷◌, ◌++◌, Option, none, some, All, Bytes,
  ◌=b◌, length, arith, Bool-cases, Option-cases, inl, inr,
}
use btrfs_nfs_csi.Base.Int.{ℤ, pos}
use btrfs_nfs_csi.Client.{ListOpts, Listing, Gathered, gathered, request_failed, list_response}
use btrfs_nfs_csi.Csi.Lists.{
  no_token, TokenFormat, AgentEntry, sorted_agents, list_opts, used_up, tagged, in_front, answered,
  skipped, list_agents, list_all, decode_page_token,
}

-- The agent answers through the client: what comes back is made of gathered items.
abbrev pub UsesClient : {T : Type 0} → AgentEntry T → Type 0
UsesClient {T} a = (opts : ListOpts) → (l : Listing T) → a.list_items opts ≡ some l → l.next ≡ []

abbrev next_in : {T : Type 0} → Option (Listing T) → Bytes
next_in none = []
next_in (some l) = l.next

-- A request without a cursor.
abbrev pub first : ℤ → ListOpts
first limit = record { after = []; limit = limit }

abbrev tagged_answer : {T : Type 0} → Bytes → Option (Listing T) → List (Bytes × T)
tagged_answer sc none = []
tagged_answer sc (some l) = tagged sc l.items

-- What the client returns has no cursor.
pub list_response-next :
    {T : Type 0} (g : Gathered T) (l : Listing T) → list_response g ≡ some l → l.next ≡ []
unfolding list_response
list_response-next (gathered items total) l h = ap next_in (sym h)
list_response-next request_failed l h = absurd (cc)

-- The items of the agents that answer, in their order.
abbrev pub all_items : {T : Type 0} → List (AgentEntry T) → List (Bytes × T)
all_items [] = []
all_items (a ∷ agents) = tagged_answer a.sc (a.list_items (first (pos 0))) ++ all_items agents

list_opts-first :
    {T : Type 0} (limit : ℤ) (a : AgentEntry T) → list_opts no_token limit a ≡ first limit
unfolding list_opts
list_opts-first limit a = elim (Bool-cases (a.sc =b [])) [ inl e ↦ rw e refl | inr e ↦ rw e refl ]

module _ {T : Type 0} (tokens : TokenFormat) where
  list_agents-All :
      (agents : List (AgentEntry T))
      → All UsesClient agents
      → list_agents tokens no_token agents (pos 0) ≡ (all_items agents, [])
  unfolding list_agents skipped answered used_up ◌=b◌
  list_agents-All [] h = refl
  list_agents-All (a ∷ agents) h = elim (Option-cases (a.list_items (first (pos 0)))) [
    | inl e ↦ rw (list_opts-first (pos 0) a, e, answered) (list_agents-All agents h.1)
    | inr (l, e) ↦
        let end = h.0 (first (pos 0)) l e in
        let none_left : 0 - length l.items ≡ 0 = omega arith in
        rw (list_opts-first (pos 0) a, e, answered, end, none_left)
          (ap (in_front (tagged a.sc l.items)) (list_agents-All agents h.1))
  ]

  -- The limit is used up by one agent.
  list_agents-cut :
      (n : ℕ) (a : AgentEntry T) (agents : List (AgentEntry T)) (l : Listing T)
      → a.list_items (first (pos (suc n))) ≡ some l
      → l.next ≡ []
      → suc n ≤ length l.items
      → list_agents tokens no_token (a ∷ agents) (pos (suc n)) ≡ (tagged a.sc l.items, [])
  unfolding list_agents skipped answered used_up ◌=b◌
  list_agents-cut n a agents l e end many =
      let up : used_up (pos (suc n)) l.items ≡ true = ground (arith, many) in
      rw (list_opts-first (pos (suc n)) a, e, answered, end, up) refl

  -- Without a limit and a token, the response has the items of every agent that answers, agent by
  -- agent in the order of the storage classes, and no next token. The agents' lists come from the
  -- client, which gathers all pages.
  pub list_all_complete :
      (agents : List (AgentEntry T))
      → All UsesClient (sorted_agents agents)
      → list_all tokens [] (pos 0) agents ≡ some (all_items (sorted_agents agents), [])
  unfolding list_all decode_page_token ◌=b◌
  list_all_complete agents h = ap some (list_agents-All (sorted_agents agents) h)

  -- Where the first agent has as many items as the limit asks for, or more, the response has all of
  -- them, none of any other agent, and no next token, whatever the other agents hold. The agents'
  -- lists come from the client.
  pub list_all-cut :
      (n : ℕ) (agents others : List (AgentEntry T)) (a : AgentEntry T) (l : Listing T)
      → sorted_agents agents ≡ a ∷ others
      → UsesClient a
      → a.list_items (first (pos (suc n))) ≡ some l
      → suc n ≤ length l.items
      → list_all tokens [] (pos (suc n)) agents ≡ some (tagged a.sc l.items, [])
  unfolding list_all decode_page_token ◌=b◌
  list_all-cut n agents others a l order client e many =
      rw order (ap some (list_agents-cut n a others l e (client (first (pos (suc n))) l e) many))
