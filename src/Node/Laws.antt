-- ===== src/Node/Laws.antt =====
-- dht/node.go: the handlers keep a node correct, and what they answer.
use webrtc_dht.Prelude.{
  ◌≡◌, refl, ◌∙◌, ap, ◌≢◌, Option, none, some, List, [], ◌∷◌, Option-cases, inl, inr, ite, if_pos,
  if_neg,
}
use webrtc_dht.Key.{Key, NodeId, key_eq}
use webrtc_dht.Types.{not_found, Result, ok, err, NetworkNode, ValueMeta}
use webrtc_dht.Routing.{k, find_closest}
use webrtc_dht.Routing.Invariant.{IsValid, IsPeer}
use webrtc_dht.Routing.Add.{add-IsValid, add-node_id}
use webrtc_dht.Routing.Closest.{contacts, IsClosest, find_closest-IsClosest}
use webrtc_dht.Storage
use webrtc_dht.Storage.{Storage}
use webrtc_dht.Storage.Memory
use webrtc_dht.Storage.Memory.{MemoryStorage}
use webrtc_dht.Storage.Files.{Formats}
use webrtc_dht.Transport.{Transport}
use webrtc_dht.Node.{
  Node, ping_ok, add_peer, observe_peer, on_ping, on_store, on_find_node, on_find_value,
  answer_find_value, nodes_or_not_found,
}

-- A node's table is valid, and is that of the node's identifier.
pub record IsNode (node : Node) : Type 0 where
  pub table : IsValid node.rt
  pub own : node.rt.node_id ≡ node.self.id

-- A caller, if it is known, has a key.
abbrev pub IsCaller : Option NetworkNode → Type 0
IsCaller none = Unit
IsCaller (some n) = IsPeer n

module _ (F : Formats) (T : Transport) where
  pub add_peer-self :
      (w : T.World) (node : Node) (n : NetworkNode) → (add_peer F T w node n).1.self ≡ node.self
  unfolding add_peer
  add_peer-self w node n = refl

  pub add_peer-storage :
      (w : T.World) (node : Node) (n : NetworkNode)
      → (add_peer F T w node n).1.storage ≡ node.storage
  unfolding add_peer
  add_peer-storage w node n = refl

  pub add_peer-IsNode :
      (w : T.World) (node : Node) (n : NetworkNode)
      → IsPeer n
      → IsNode node
      → IsNode (add_peer F T w node n).1
  unfolding add_peer
  add_peer-IsNode w node n p h = record {
    table = add-IsValid (ping_ok F T) w node.rt n h.table p;
    own = add-node_id (ping_ok F T) w node.rt n ∙ h.own;
  }

  pub observe_peer-IsNode :
      (w : T.World) (node : Node) (sender : Option NetworkNode)
      → IsCaller sender
      → IsNode node
      → IsNode (observe_peer F T w node sender).1
  unfolding observe_peer
  observe_peer-IsNode w node none p h = h
  observe_peer-IsNode w node (some n) p h = add_peer-IsNode w node n p h

  -- Every call of another node that has a key leaves the node correct.
  pub handlers-IsNode :
      (w : T.World) (node : Node) (sender : Option NetworkNode) (key : Key) (value : ValueMeta)
      → IsCaller sender
      → IsNode node
      → IsNode (on_ping F T w node sender).1
        × IsNode (on_store F T w node sender key value).1
        × IsNode (on_find_node F T w node sender key).1
        × IsNode (on_find_value F T w node sender key).1
  unfolding on_ping on_store on_find_node on_find_value
  handlers-IsNode w node sender key value p h =
      let v = observe_peer-IsNode w node sender p h in
      (v, record { table = v.table; own = v.own }, v, v)

  -- `OnFindNode` answers with the `k` contacts of the table that are nearest to the target, the
  -- caller among them if it is in the table by then.
  pub on_find_node-IsClosest :
      (w : T.World) (node : Node) (sender : Option NetworkNode) (target : NodeId)
      → (ns : List NetworkNode) × ((on_find_node F T w node sender target).2 ≡ ok ns)
        × IsClosest (contacts (on_find_node F T w node sender target).1.rt) ns target k
  unfolding on_find_node
  on_find_node-IsClosest w node sender target = (_, refl, find_closest-IsClosest _ target k)

  observe_peer-storage :
      (w : T.World) (node : Node) (sender : Option NetworkNode)
      → (observe_peer F T w node sender).1.storage ≡ node.storage
  unfolding observe_peer add_peer
  observe_peer-storage w node none = refl
  observe_peer-storage w node (some n) = refl

  stored_in_memory :
      (s : Storage) (m : MemoryStorage) (key j : Key) (value : ValueMeta)
      → s ≡ Storage.memory m
      → Storage.get F (Storage.put F s key value) j
        ≡ ite (key_eq key j) (some value) (Storage.get F s j)
  unfolding Storage.get Storage.put
  stored_in_memory s m key j value e = rw e (Memory.get-put m key j value)

  answer_hit :
      (node : Node) (key : Key) (value : ValueMeta)
      → Storage.get F node.storage key ≡ some value
      → answer_find_value F T node key ≡ ok (some value, [])
  unfolding answer_find_value
  answer_hit node key value h = rw (h, answer_find_value)

  -- At a node that keeps its values in memory, on_find_value answers with the value that on_store
  -- was given under that key, whoever calls; under any other key the storage is as before.
  pub on_find_value-on_store :
      (w w' : T.World) (node : Node) (m : MemoryStorage) (sender sender' : Option NetworkNode)
      (key : Key) (value : ValueMeta)
      → node.storage ≡ Storage.memory m
      → let after = (on_store F T w node sender key value).1 in
        ((on_find_value F T w' after sender' key).2 ≡ ok (some value, []))
        × ((j : Key)
            → key ≢ j
            → Storage.get F (on_find_value F T w' after sender' j).1.storage j
              ≡ Storage.get F node.storage j)
  unfolding on_find_value on_store
  on_find_value-on_store w w' node m sender sender' key value e = (
    answer_hit last key value (stored key ∙ if_pos (key_eq key key) refl _ _),
    λ j ne. stored j ∙ if_neg (key_eq key j) ne _ _,
  )
    where
      last : Node
      last = (observe_peer F T w' (on_store F T w node sender key value).1 sender').1

      stored :
          (j : Key)
          → Storage.get F last.storage j
            ≡ ite (key_eq key j) (some value) (Storage.get F node.storage j)
      stored j =
          ap (λ s. Storage.get F s j)
            (observe_peer-storage w' (on_store F T w node sender key value).1 sender'
              ∙ ap (λ s. Storage.put F s key value) (observe_peer-storage w node sender))
          ∙ stored_in_memory node.storage m key j value e

  nodes_cases {ℓ} :
      (P : Result (Option ValueMeta × List NetworkNode) → Type ℓ) (ns : List NetworkNode)
      → ((n : NetworkNode) (rest : List NetworkNode) → P (ok (none, n ∷ rest)))
      → P (err not_found)
      → P (nodes_or_not_found F T ns)
  unfolding nodes_or_not_found
  nodes_cases P [] nodes missing = missing
  nodes_cases P (n ∷ ns) nodes missing = nodes n ns

  -- What `OnFindValue` can answer: a value, nodes, or that there is neither.
  pub answer_find_value_cases {ℓ} :
      (P : Result (Option ValueMeta × List NetworkNode) → Type ℓ) (node : Node) (key : Key)
      → ((value : ValueMeta) → P (ok (some value, [])))
      → ((n : NetworkNode) (rest : List NetworkNode) → P (ok (none, n ∷ rest)))
      → P (err not_found)
      → P (answer_find_value F T node key)
  unfolding answer_find_value
  answer_find_value_cases P node key found nodes missing =
      elim (Option-cases (Storage.get F node.storage key)) [
        | inr (value, e) ↦ rw (e, answer_find_value) (found value)
        | inl e ↦
            rw (e, answer_find_value) (nodes_cases P (find_closest node.rt key k) nodes missing)
      ]
