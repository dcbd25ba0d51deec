-- ===== src/Node/Made.antt =====
-- dht/node.go: the node that a program makes first is correct.
use webrtc_dht.Prelude.{refl, Bool, Option, All, ℤ, Text, Bytes}
use webrtc_dht.Key.{IsByte, generate_key-IsKey}
use webrtc_dht.Types.{NetworkNode}
use webrtc_dht.Routing.{set_ping, new_routing_table}
use webrtc_dht.Routing.Invariant.{IsPeer, new_routing_table-IsValid}
use webrtc_dht.Storage.{Storage}
use webrtc_dht.Node.{new_network_node, new_node_with_storage, new_node}
use webrtc_dht.Node.Laws.{IsNode}

made-IsNode :
    (contact : NetworkNode) (has_transport : Bool) (storage : Option Storage)
    → IsPeer contact
    → IsNode (new_node_with_storage contact has_transport storage)
unfolding new_node_with_storage set_ping new_routing_table
made-IsNode contact has_transport storage p =
    let v = new_routing_table-IsValid p in
    record { table = record { is_key = v.is_key; count = v.count; each = v.each }; own = refl }

-- A contact that NewNetworkNode makes of random bytes has a key, and a node that NewNode or
-- NewNodeWithStorage makes for it is correct, whatever the storage, none included: its table is
-- valid and has the identifier of the node.
pub new_node-IsNode :
    (parse_ip : Text → Bytes) (random : Bytes) (address : Text) (port : ℤ) (has_transport : Bool)
    (storage : Option Storage)
    → All IsByte random
    → IsPeer (new_network_node parse_ip random address port)
      × IsNode (new_node (new_network_node parse_ip random address port) has_transport)
      × IsNode (
          new_node_with_storage
            (new_network_node parse_ip random address port)
            has_transport
            storage)
unfolding new_network_node new_node
new_node-IsNode parse_ip random address port has_transport storage h =
    let p = generate_key-IsKey random h in (p, made-IsNode _ _ _ p, made-IsNode _ _ _ p)
