-- ===== src/Bench/Nodes.antt =====
-- cmd/bench_dht/main.go: nodes that register with a coordinator, which then stores values. Its list
-- of nodes, with the signal that all have registered, is a `Collected` of `NodeInfo`. `NewNode` and
-- what it stands on are modelled elsewhere; here the table is given by `StoreValue` on a world.
use webrtc_dht.Prelude.{
  ℕ, zero, suc, ◌≡◌, refl, ap, ite, none, some, List, [], ◌∷◌, Text, Bytes, codes, ℤ,
}
use webrtc_dht.Key.{key_eq, generate_key}
use webrtc_dht.Key.Hex.{hex_encode}
use webrtc_dht.Types.{NetworkNode, ValueMeta}
use webrtc_dht.Node.{show_port}
use webrtc_dht.Routing.Invariant.{IsPeer}
use webrtc_dht.Signaling.Dht.{Dht}
use webrtc_dht.Bench.Ids.{id_from_hex, id_from_hex-hex_encode}
use webrtc_dht.Bench.Coordinator.{Collected, record_result}

pub record NodeInfo : Type 0 where
  pub addr : Text
  pub dht_port : ℤ
  pub sig_port : ℤ
  pub node_id_hex : Text

-- What a node tells of itself.
unfoldable pub node_info : Text → ℤ → ℤ → NetworkNode → NodeInfo
unfolding hex_encode
node_info addr dht_port sig_port contact = record {
  addr = addr;
  dht_port = dht_port;
  sig_port = sig_port;
  node_id_hex = hex_encode contact.id;
}

-- `parse_ip` is `net.ParseIP`.
unfoldable pub to_network_node : (Text → Bytes) → Text → NodeInfo → NetworkNode
unfolding id_from_hex key_eq show_port
to_network_node parse_ip transport info = record {
  id = id_from_hex info.node_id_hex;
  address = parse_ip info.addr;
  port = info.dht_port;
  meta =
      ite (key_eq transport (codes "webrtc"))
        (some ((codes "sig_port", show_port info.sig_port) ∷ [])) none;
}

unfoldable pub register_node : ℕ → Collected NodeInfo → NodeInfo → Collected NodeInfo
unfolding record_result
register_node node_count c info = record_result node_count c info

pub record DhtResult : Type 0 where
  pub transport : Text
  pub node_count : ℕ
  pub mode : Text
  pub payload_bytes : ℕ
  pub iteration : ℕ
  pub duration_ns : ℕ
  pub transferred : ℕ

module _ (transport : Text) (node_count payload : ℕ) (elapsed : ℕ → ℕ) where
  unfoldable pub store_result : ℕ → DhtResult
  store_result i = record {
    transport = transport;
    node_count = node_count;
    mode = codes "store";
    payload_bytes = payload;
    iteration = i;
    duration_ns = elapsed i;
    transferred = payload;
  }

  -- The iterations from one on, so many; an error of `StoreValue` is only logged.
  unfoldable pub store_iterations :
      (D : Dht) → (ℕ → Bytes) → ValueMeta → ℕ → ℕ → D.World → D.World × List DhtResult
  unfolding store_result generate_key
  store_iterations D random vm i zero w = (w, [])
  store_iterations D random vm i (suc left) w =
      let (w₁, e) = D.store_value w (generate_key (random i)) vm in
      let (w₂, rest) = store_iterations D random vm (suc i) left w₁ in (w₂, store_result i ∷ rest)

  -- The results that iterations would have of which each stores its value.
  abbrev pub stored_from : ℕ → ℕ → List DhtResult
  stored_from i zero = []
  stored_from i (suc left) = store_result i ∷ stored_from (suc i) left

  -- Whatever errors StoreValue returns, each iteration adds a result in which all of the payload
  -- was transferred.
  pub store_iterations-results :
      (D : Dht) (random : ℕ → Bytes) (vm : ValueMeta) (left i : ℕ) (w : D.World)
      → (store_iterations D random vm i left w).1 ≡ stored_from i left
  unfolding store_iterations
  store_iterations-results D random vm zero i w = refl
  store_iterations-results D random vm (suc left) i w =
      ap (λ rest. store_result i ∷ rest)
        (store_iterations-results D random vm left (suc i)
          (D.store_value w (generate_key (random i)) vm).0)

-- What a node with a key tells of itself makes a contact with that key and the port of its table;
-- and whatever a node tells, the contact has a key.
pub to_network_node-node_info :
    (parse_ip : Text → Bytes) (transport addr : Text) (dht_port sig_port : ℤ)
    (contact : NetworkNode) (info : NodeInfo)
    → IsPeer contact
    → let made = to_network_node parse_ip transport (node_info addr dht_port sig_port contact) in
      (made.id ≡ contact.id)
      × (made.port ≡ dht_port)
      × IsPeer (to_network_node parse_ip transport info)
unfolding to_network_node node_info
to_network_node-node_info parse_ip transport addr dht_port sig_port contact info p = (
  (id_from_hex-hex_encode info.node_id_hex contact.id p).1,
  refl,
  (id_from_hex-hex_encode info.node_id_hex contact.id p).0,
)
