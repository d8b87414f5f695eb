-- ===== src/RegisterCenter/Resolver.antt =====
-- Common/RegisterCenter/ServiceResolver.go: the addresses of a service with their weights, and the
-- virtual nodes that are published to the balancer. A method returns the new resolver. `published`
-- holds what `UpdateState` was given, the latest first.
pub mod Keys
pub mod Nodes
use algogateway.Common.{
  ℕ, zero, suc, Bytes, text, itoa, Dict, lookup, insert, erase, List, [], ◌∷◌, ◌++◌, Option, none,
  some, leb, if◌then◌else◌,
}
use algogateway.RegisterCenter.Options.{RealNode, VirtualNode, Address, set_node_info}

pub record ServiceResolver : Type 0 where
  pub addrs : Dict ℕ
  pub nodes : Dict Address
  pub published : List (List Address)

abbrev pub new_resolver : ServiceResolver
new_resolver = record { addrs = []; nodes = []; published = [] }

-- `addr + ":" + strconv.Itoa(idx)`.
unfoldable pub node_key : Bytes → ℕ → Bytes
node_key addr idx = addr ++ b':' ∷ itoa idx

unfoldable pub set_addr : Bytes → ℕ → ServiceResolver → ServiceResolver
set_addr addr count r = record r { addrs = insert addr count r.addrs }

-- The address that `addNodes` stores.
unfoldable pub node_address : Bytes → ℕ → RealNode → Address
unfolding set_node_info
node_address addr idx rn =
    set_node_info (record { addr = addr; info = none })
      (record { key = node_key addr idx; rn = rn })

abbrev pub store_node : Option ℕ → Bytes → ℕ → RealNode → ServiceResolver → ServiceResolver
store_node none addr idx rn r = r
store_node (some count) addr idx rn r =
    if leb count idx
    then r
    else record r { nodes = insert (node_key addr idx) (node_address addr idx rn) r.nodes }

unfoldable pub add_nodes : Bytes → ℕ → RealNode → ServiceResolver → ServiceResolver
add_nodes addr idx rn r = store_node (lookup addr r.addrs) addr idx rn r

-- The loop of `updateAddr` (Common/RegisterCenter/UnifiedClient.go) over `addNodes`, with the rounds
-- left.
unfoldable pub add_all : ℕ → ℕ → Bytes → RealNode → ServiceResolver → ServiceResolver
add_all zero idx addr rn r = r
add_all (suc left) idx addr rn r = add_all left (suc idx) addr rn (add_nodes addr idx rn r)

-- `for idx < count { nodes.Delete(key) }`, with the rounds left.
unfoldable pub delete_keys : ℕ → ℕ → Bytes → Dict Address → Dict Address
delete_keys zero idx addr nodes = nodes
delete_keys (suc left) idx addr nodes =
    delete_keys left (suc idx) addr (erase (node_key addr idx) nodes)

abbrev pub drop_addr : Option ℕ → Bytes → ServiceResolver → ServiceResolver
drop_addr none addr r = r
drop_addr (some count) addr r = record r {
  nodes = delete_keys count 0 addr r.nodes;
  addrs = erase addr r.addrs;
}

unfoldable pub del_addr : Bytes → ServiceResolver → ServiceResolver
del_addr addr r = drop_addr (lookup addr r.addrs) addr r

-- `getAddress`: the values of `nodes`.
unfoldable pub values {ℓ} : {V : Type ℓ} → Dict V → List V
values [] = []
values ((k, v) ∷ m) = v ∷ values m

unfoldable get_address : ServiceResolver → List Address
unfolding values
get_address r = values r.nodes

unfoldable pub update : ServiceResolver → ServiceResolver
unfolding get_address
update r = record r { published = get_address r ∷ r.published }
