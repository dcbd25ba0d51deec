-- ===== src/Node.antt =====
-- dht/node.go: a node, and its answers to the calls of other nodes. An answer is a step of the
-- node and of the world, since to note the caller may ping another contact.
pub mod Laws
pub mod Made
pub mod Answered
use webrtc_dht.Prelude.{
  Bool, true, false, Option, none, some, List, [], ◌∷◌, ◌++◌, ℤ, pos, negsuc, suc, decimal, Text,
  Bytes, codes,
}
use webrtc_dht.Key.{Key, NodeId, generate_key}
use webrtc_dht.Types.{Error, not_found, message, Result, ok, err, NetworkNode, ValueMeta}
use webrtc_dht.Routing.{k, RoutingTable, new_routing_table, set_ping, add, find_closest}
use webrtc_dht.Storage
use webrtc_dht.Storage.{Storage, as_blob_store}
use webrtc_dht.Storage.Disk
use webrtc_dht.Storage.Disk.{DiskStorage}
use webrtc_dht.Storage.Files.{Formats}
use webrtc_dht.Storage.Memory.{new_memory_storage}
use webrtc_dht.Transport.{Transport}

pub record Node : Type 0 where
  pub self : NetworkNode
  pub storage : Storage
  pub has_transport : Bool
  pub rt : RoutingTable

-- `random` are the bytes that were read for the identifier; `parse_ip` is `net.ParseIP`.
unfoldable pub new_network_node : (Text → Bytes) → Bytes → Text → ℤ → NetworkNode
unfolding generate_key
new_network_node parse_ip random address port = record {
  id = generate_key random;
  address = parse_ip address;
  port = port;
  meta = none;
}

-- `%d` of a port.
unfoldable pub show_port : ℤ → Text
unfolding decimal
show_port (pos n) = decimal n
show_port (negsuc n) = codes "-" ++ decimal (suc n)

-- `show_ip` is `%s` of an address.
unfoldable pub node_addr : (Bytes → Text) → Node → Text
unfolding show_port
node_addr show_ip node = show_ip node.self.address ++ codes ":" ++ show_port node.self.port

-- `storage == nil` falls back to the memory.
storage_or_memory : Option Storage → Storage
storage_or_memory none = Storage.memory new_memory_storage
storage_or_memory (some s) = s

unfoldable pub new_node_with_storage : NetworkNode → Bool → Option Storage → Node
unfolding storage_or_memory
new_node_with_storage net_node has_transport storage = record {
  self = net_node;
  storage = storage_or_memory storage;
  has_transport = has_transport;
  rt = set_ping (new_routing_table net_node.id);
}

unfoldable pub new_node : NetworkNode → Bool → Node
new_node net_node has_transport =
    new_node_with_storage net_node has_transport (some (Storage.memory new_memory_storage))

abbrev pub is_nil : Option Error → Bool
is_nil none = true
is_nil (some e) = false

module _ (F : Formats) (T : Transport) where
  open T use {World, ping}

  -- The function that `SetPing` is given.
  abbrev pub ping_ok : World → NetworkNode → World × Bool
  ping_ok w peer = let (w', e) = ping w peer in (w', is_nil e)

  unfoldable pub add_peer : World → Node → NetworkNode → World × Node
  add_peer w node peer = let (w', rt) = add ping_ok w node.rt peer in (w', record node { rt = rt })

  unfoldable pub observe_peer : World → Node → Option NetworkNode → World × Node
  observe_peer w node none = (w, node)
  observe_peer w node (some peer) = add_peer w node peer

  unfoldable pub on_ping : World → Node → Option NetworkNode → World × Node × Option Error
  on_ping w node sender = let (w', node') = observe_peer w node sender in (w', node', none)

  unfoldable pub on_store :
      World → Node → Option NetworkNode → Key → ValueMeta → World × Node × Option Error
  on_store w node sender key value =
      let (w', node') = observe_peer w node sender in
      (w', record node' { storage = Storage.put F node'.storage key value }, none)

  unfoldable pub on_find_node :
      World → Node → Option NetworkNode → NodeId → World × Node × Result (List NetworkNode)
  on_find_node w node sender target =
      let (w', node') = observe_peer w node sender in
      (w', node', ok (find_closest node'.rt target k))

  -- The answer from the table, if the value is not here.
  nodes_or_not_found : List NetworkNode → Result (Option ValueMeta × List NetworkNode)
  nodes_or_not_found [] = err not_found
  nodes_or_not_found (n ∷ ns) = ok (none, n ∷ ns)

  unfoldable pub answer_find_value : Node → Key → Result (Option ValueMeta × List NetworkNode)
  unfolding nodes_or_not_found
  answer_find_value node key = elim (Storage.get F node.storage key) [
    | some value ↦ ok (some value, [])
    | none ↦ nodes_or_not_found (find_closest node.rt key k)
  ]

  unfoldable pub on_find_value :
      World
      → Node
      → Option NetworkNode
      → Key
      → World × Node × Result (Option ValueMeta × List NetworkNode)
  on_find_value w node sender key =
      let (w', node') = observe_peer w node sender in (w', node', answer_find_value node' key)

  blob_of : Option DiskStorage → Text → Result Bytes
  blob_of none ref = err (message (codes "node does not support blob storage"))
  blob_of (some s) ref = Disk.get_blob F s ref

  -- The caller is not noted here.
  unfoldable pub on_fetch_blob : Node → Option NetworkNode → Text → Result Bytes
  unfolding blob_of
  on_fetch_blob node sender ref = blob_of (as_blob_store node.storage) ref

  unfoldable pub delete_local : Node → Key → Node
  delete_local node key = record node { storage = Storage.delete F node.storage key }

-- `Start`, where `listen` is what the transport's `Listen` returns.
unfoldable pub start : Node → Option Error → Option Error
start node listen = elim node.has_transport [
  | false ↦ some (message (codes "transport is not configured"))
  | true ↦ listen
]

-- `Close`, where `closed` is what the transport's `Close` returns.
unfoldable pub close : Node → Option Error → Option Error
close node closed = elim node.has_transport [ false ↦ none | true ↦ closed ]
