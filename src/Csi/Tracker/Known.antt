-- ===== src/Csi/Tracker/Known.antt =====
-- The tracker of integrations/kubernetes/controller/agenttracker.go after a discovery.
use btrfs_nfs_csi.Base.{
  or_else, or_else_assoc, or_else-none, ◌≡◌, refl, sym, ap, ◌∙◌, Bool, true, false, List, [], ◌∷◌,
  Option, none, some, Bytes, Dict, ◌=b◌, eq_iff, lookup, insert, lookup-insert, if◌then◌else◌,
  arith, Bool-cases, Option-cases, inl, inr,
}
use btrfs_nfs_csi.Csi.Tracker.{
  Client, new_client, Tracker, AgentInfo, client, discovered, discover_loop, is_known, keep_known,
  discover_from_storage_classes,
}

-- The URL that the last entry of a storage class names.
abbrev pub last_url : List AgentInfo → Bytes → Option Bytes
last_url [] sc = none
last_url (a ∷ infos) sc = or_else (last_url infos sc) (if a.sc_name =b sc then some a.url else none)

-- The first client that can be made for a URL.
abbrev pub first_client : List AgentInfo → Bytes → Option Client
first_client [] url = none
first_client (a ∷ infos) url =
    or_else (if a.url =b url then new_client a.url a.token else none) (first_client infos url)

lookup-discovered :
    (a : AgentInfo) (agents : Dict Client) (url : Bytes)
    → lookup url (discovered a agents)
      ≡ or_else (lookup url agents) (if a.url =b url then new_client a.url a.token else none)
unfolding discovered
lookup-discovered a agents url = elim (Option-cases (lookup a.url agents)) [
  | inr (c, e) ↦
      let kept : discovered a agents ≡ agents = rw (discovered, e) refl in
      rw kept (elim (Bool-cases (a.url =b url)) [
        | inl t ↦
            let found : lookup url agents ≡ some c =
              ap (λ u. lookup u agents) (sym ((eq_iff a.url url).0 t)) ∙ e in
            rw (t, found) refl
        | inr f ↦ rw f (sym (or_else-none (lookup url agents)))
      ])
  | inl e ↦ elim (Option-cases (new_client a.url a.token)) [
    | inl n ↦
        let kept : discovered a agents ≡ agents = rw (discovered, e, n) refl in
        rw (kept, n)
          (elim (Bool-cases (a.url =b url)) [
            | inl t ↦ rw t (sym (or_else-none (lookup url agents)))
            | inr f ↦ rw f (sym (or_else-none (lookup url agents)))
          ])
    | inr (c, n) ↦
        let made : discovered a agents ≡ insert a.url c agents = rw (discovered, e, n) refl in
        rw (made, n)
          (lookup-insert a.url url c agents ∙ elim (Bool-cases (a.url =b url)) [
            | inl t ↦
                let gone : lookup url agents ≡ none =
                  ap (λ u. lookup u agents) (sym ((eq_iff a.url url).0 t)) ∙ e in
                rw (t, gone) refl
            | inr f ↦ rw f (sym (or_else-none (lookup url agents)))
          ])
  ]
]

lookup-discover_loop :
    (infos : List AgentInfo) (t : Tracker) (url : Bytes)
    → lookup url (discover_loop infos t).agents
      ≡ or_else (lookup url t.agents) (first_client infos url)
unfolding discover_loop
lookup-discover_loop [] t url = sym (or_else-none (lookup url t.agents))
lookup-discover_loop (a ∷ infos) t url =
    lookup-discover_loop infos _ url
    ∙ ap (λ o. or_else o (first_client infos url)) (lookup-discovered a t.agents url)
    ∙ or_else_assoc (lookup url t.agents) _ _

lookup_class-discover_loop :
    (infos : List AgentInfo) (t : Tracker) (sc : Bytes)
    → lookup sc (discover_loop infos t).sc_to_url
      ≡ or_else (last_url infos sc) (lookup sc t.sc_to_url)
unfolding discover_loop
lookup_class-discover_loop [] t sc = refl
lookup_class-discover_loop (a ∷ infos) t sc =
    lookup_class-discover_loop infos _ sc
    ∙ ap (λ o. or_else (last_url infos sc) o)
        (lookup-insert a.sc_name sc a.url t.sc_to_url
          ∙ split_test (a.sc_name =b sc) a.url (lookup sc t.sc_to_url))
    ∙ sym (or_else_assoc (last_url infos sc) _ _)
  where
    split_test :
        (b : Bool) (x : Bytes) (o : Option Bytes)
        → (if b then some x else o) ≡ or_else (if b then some x else none) o
    split_test true x o = refl
    split_test false x o = refl

lookup-keep_known :
    (infos : List AgentInfo) (agents : Dict Client) (url : Bytes)
    → lookup url (keep_known infos agents)
      ≡ (if is_known infos url then lookup url agents else none)
unfolding keep_known lookup
lookup-keep_known infos [] url = elim (Bool-cases (is_known infos url)) [
  | inl e ↦ rw e refl
  | inr e ↦ rw e refl
]
lookup-keep_known infos ((u, c) ∷ agents) url =
    let ih = lookup-keep_known infos agents url in
    elim (Bool-cases (u =b url)) [
      | inl t ↦
          let same = ap (is_known infos) ((eq_iff u url).0 t) in
          elim (Bool-cases (is_known infos u)) [
            | inl k ↦ rw (k, t, sym same ∙ k) refl
            | inr k ↦ rw k (ih ∙ rw (sym same ∙ k) refl)
          ]
      | inr f ↦ elim (Bool-cases (is_known infos u)) [ inl k ↦ rw (k, f) ih | inr k ↦ rw (k, f) ih ]
    ]

last_url-is_known :
    (infos : List AgentInfo) (sc url : Bytes)
    → last_url infos sc ≡ some url
    → is_known infos url ≡ true
unfolding is_known
last_url-is_known [] sc url h = absurd (cc)
last_url-is_known (a ∷ infos) sc url h = elim (Option-cases (last_url infos sc)) [
  | inr (u, e) ↦
      let known = last_url-is_known infos sc url (e ∙ (rw e at h)) in ground (arith, known)
  | inl e ↦ ground (arith, rw e at h, eq_iff a.url url)
]

-- The client of a storage class, given what the listing says of it.
abbrev pub client_named : List AgentInfo → Tracker → Option Bytes → Option Client
client_named infos t none = none
client_named infos t (some url) = or_else (lookup url t.agents) (first_client infos url)

-- After a discovery a storage class has a client exactly where the listing names it: the one kept
-- for the URL of its last entry, or else the first that could be made for that URL. What the tracker
-- knew of storage classes before plays no part.
pub client-discover_from_storage_classes :
    (infos : List AgentInfo) (t : Tracker) (sc : Bytes)
    → client (discover_from_storage_classes infos t) sc ≡ client_named infos t (last_url infos sc)
unfolding discover_from_storage_classes client lookup
client-discover_from_storage_classes infos t sc =
    let start = record t { sc_to_url = [] } in
    let class = lookup_class-discover_loop infos start sc ∙ or_else-none (last_url infos sc) in
    elim (Option-cases (last_url infos sc)) [
      | inl e ↦ rw (e, client, class ∙ e) refl
      | inr (url, e) ↦
          let kept = lookup-keep_known infos (discover_loop infos start).agents url in
          rw (e, client, class ∙ e, kept, last_url-is_known infos sc url e)
            (lookup-discover_loop infos start url)
    ]
