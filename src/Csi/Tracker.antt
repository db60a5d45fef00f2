-- ===== src/Csi/Tracker.antt =====
-- integrations/kubernetes/controller/agenttracker.go: which agent a storage class names, and the
-- client kept for it; newClient of agent/api/v1/client/client.go, and the two functions of
-- controller/utils.go that make a client.
pub mod Known
use btrfs_nfs_csi.Base.{
  ◌≡◌, refl, Bool, true, false, not, ◌&&◌, ◌||◌, List, [], ◌∷◌, any, Option, none, some, Bytes,
  codes, Dict, ◌=b◌, lookup, insert, is_none, if◌then◌else◌,
}
use btrfs_nfs_csi.Validate.{Labels}
use btrfs_nfs_csi.Storage.Model.{label_at}
use btrfs_nfs_csi.Csi.Params.{driver_name}

pub record Client : Type 0 where
  pub url : Bytes
  pub token : Bytes

-- `none` is the error.
unfoldable pub new_client : Bytes → Bytes → Option Client
new_client url token =
    if url =b []
    then none
    else if token =b []
    then none
    else some record { url = url; token = token }

-- The clients by their URL, and the URL of each storage class.
pub record Tracker : Type 0 where
  pub agents : Dict Client
  pub sc_to_url : Dict Bytes

unfoldable pub agent_url : Tracker → Bytes → Option Bytes
agent_url t sc = lookup sc t.sc_to_url

unfoldable pub track : Bytes → Client → Tracker → Tracker
track url c t = record t { agents = insert url c t.agents }

-- The client of a storage class; `none` is nil.
unfoldable pub client : Tracker → Bytes → Option Client
client t sc = elim (lookup sc t.sc_to_url) [ none ↦ none | some url ↦ lookup url t.agents ]

clients_by_class : Dict Client → Dict Bytes → Dict Client
clients_by_class agents [] = []
clients_by_class agents ((sc, url) ∷ classes) =
    let rest = clients_by_class agents classes in
    elim (lookup url agents) [ none ↦ rest | some c ↦ (sc, c) ∷ rest ]

-- `Agents()`: the storage classes whose client is there.
unfoldable pub agents_by_class : Tracker → Dict Client
unfolding clients_by_class
agents_by_class t = clients_by_class t.agents t.sc_to_url

-- A storage class as the API server lists it.
pub record StorageClass : Type 0 where
  pub name : Bytes
  pub provisioner : Bytes
  pub parameters : Labels

pub record AgentInfo : Type 0 where
  pub sc_name : Bytes
  pub url : Bytes
  pub token : Bytes

abbrev pub param_agent_url : Bytes
param_agent_url = codes "agentURL"

abbrev pub secret_agent_token : Bytes
secret_agent_token = codes "agentToken"

-- The API server's secrets, by namespace and name.
unfoldable pub resolve_agent_token : (Bytes → Bytes → Option Labels) → Labels → Bytes
resolve_agent_token get_secret params =
    let name = label_at params (codes "csi.storage.k8s.io/provisioner-secret-name") in
    let ns = label_at params (codes "csi.storage.k8s.io/provisioner-secret-namespace") in
    if name =b [] || ns =b []
    then []
    else elim (get_secret ns name) [ none ↦ [] | some secret ↦ label_at secret secret_agent_token ]

-- The test of the loop, and what it appends.
unfoldable pub discover_agents :
    (Bytes → Bytes → Option Labels) → List StorageClass → List AgentInfo
discover_agents get_secret [] = []
discover_agents get_secret (sc ∷ classes) =
    let rest = discover_agents get_secret classes in
    let url = label_at sc.parameters param_agent_url in
    if sc.provisioner =b driver_name && not (url =b [])
    then record {
      sc_name = sc.name;
      url = url;
      token = resolve_agent_token get_secret sc.parameters;
    }
      ∷ rest
    else rest

-- `t.agents` behind one round: a client is made where there is none, and an error is logged.
unfoldable pub discovered : AgentInfo → Dict Client → Dict Client
discovered a agents =
    if is_none (lookup a.url agents)
    then elim (new_client a.url a.token) [ none ↦ agents | some c ↦ insert a.url c agents ]
    else agents

unfoldable pub discover_loop : List AgentInfo → Tracker → Tracker
discover_loop [] t = t
discover_loop (a ∷ infos) t =
    discover_loop infos
      record { agents = discovered a t.agents; sc_to_url = insert a.sc_name a.url t.sc_to_url }

-- `known[url]`
unfoldable pub is_known : List AgentInfo → Bytes → Bool
is_known infos url = any (λ a. a.url =b url) infos

unfoldable pub keep_known : List AgentInfo → Dict Client → Dict Client
keep_known infos [] = []
keep_known infos ((url, c) ∷ agents) =
    let rest = keep_known infos agents in if is_known infos url then (url, c) ∷ rest else rest

-- The locked part of discoverFromStorageClasses: the map of classes is made anew, and clients of
-- other URLs are dropped.
unfoldable pub discover_from_storage_classes : List AgentInfo → Tracker → Tracker
unfolding discover_loop
discover_from_storage_classes infos t =
    let found = discover_loop infos (record t { sc_to_url = [] }) in
    record found { agents = keep_known infos found.agents }

-- The codes of gRPC that the controller returns; an error without a code is UNKNOWN.
pub data Code : Type 0 where
  invalid_argument failed_precondition internal aborted unknown : Code

pub data Reply (A : Type 0) : Type 0 where
  ok : A → Reply A
  refused : Code → Reply A

unfoldable pub agent_client_from_secrets : Bytes → Labels → Reply Client
agent_client_from_secrets url secrets =
    let token = label_at secrets secret_agent_token in
    if token =b []
    then refused invalid_argument
    else elim (new_client url token) [ none ↦ refused unknown | some c ↦ ok c ]

tracked : Bytes → Reply Client → Tracker → Reply Client × Tracker
tracked url (ok c) t = (ok c, track url c t)
tracked url (refused code) t = (refused code, t)

unfoldable pub agent_client_from_storage_class : Bytes → Labels → Tracker → Reply Client × Tracker
unfolding tracked
agent_client_from_storage_class sc secrets t = elim (client t sc) [
  | some c ↦ (ok c, t)
  | none ↦ elim (agent_url t sc) [
    | none ↦ (refused failed_precondition, t)
    | some url ↦ tracked url (agent_client_from_secrets url secrets) t
  ]
]
