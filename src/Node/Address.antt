-- ===== src/Node/Address.antt =====
-- integrations/kubernetes/driver/utils.go: the address of a node.
use btrfs_nfs_csi.Base.{Bool, not, List, [], ◌∷◌, Option, none, some, Bytes, ◌=b◌, if◌then◌else◌}

-- A network interface as package net lists it. An address that is no IPv4 address is `none`, and a
-- list of addresses that cannot be read is `none`.
pub record Interface : Type 0 where
  pub name : Bytes
  pub is_loopback : Bool
  pub addrs : Option (List (Option Bytes))

first_ip4 : List (Option Bytes) → Option Bytes
first_ip4 [] = none
first_ip4 (some ip ∷ addrs) = some ip
first_ip4 (none ∷ addrs) = first_ip4 addrs

unfoldable pub ip_from_interface : List Interface → Bytes → Option Bytes
unfolding first_ip4
ip_from_interface [] name = none
ip_from_interface (i ∷ ifaces) name =
    let rest = ip_from_interface ifaces name in
    if i.name =b name then elim i.addrs [ none ↦ none | some addrs ↦ first_ip4 addrs ] else rest

-- The first address that the subnet contains.
first_inside : (Bytes → Bool) → List (Option Bytes) → Option Bytes
first_inside inside [] = none
first_inside inside (none ∷ addrs) = first_inside inside addrs
first_inside inside (some ip ∷ addrs) =
    let rest = first_inside inside addrs in if inside ip then some ip else rest

addresses : Interface → List (Option Bytes)
addresses i = if i.is_loopback then [] else elim i.addrs [ none ↦ [] | some addrs ↦ addrs ]

search_interfaces : (Bytes → Bool) → List Interface → Option Bytes
unfolding first_inside addresses
search_interfaces inside [] = none
search_interfaces inside (i ∷ ifaces) = elim (first_inside inside (addresses i)) [
  | some ip ↦ some ip
  | none ↦ search_interfaces inside ifaces
]

-- net.ParseCIDR is a parameter: the test that the subnet makes, or an error. An error of
-- net.Interfaces is `none`.
unfoldable pub ip_from_cidr :
    (Bytes → Option (Bytes → Bool)) → Option (List Interface) → Bytes → Option Bytes
unfolding search_interfaces
ip_from_cidr parse_cidr ifaces cidr = elim (parse_cidr cidr) [
  | none ↦ none
  | some inside ↦ elim ifaces [ none ↦ none | some l ↦ search_interfaces inside l ]
]

abbrev listed : Option (List Interface) → List Interface
listed none = []
listed (some l) = l

-- `none` is the error.
unfoldable pub resolve_node_ip :
    (Bytes → Option (Bytes → Bool)) → Option (List Interface) → Bytes → Bytes → Bytes → Option Bytes
resolve_node_ip parse_cidr ifaces node_ip storage_iface storage_cidr =
    if not (storage_iface =b [])
    then ip_from_interface (listed ifaces) storage_iface
    else if not (storage_cidr =b [])
    then ip_from_cidr parse_cidr ifaces storage_cidr
    else if not (node_ip =b [])
    then some node_ip
    else none
