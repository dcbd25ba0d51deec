-- ===== src/Node/Answered.antt =====
-- dht/node.go: what a node has noted and what it answers, after a call of another node.
use webrtc_dht.Prelude.{
  ◌≤◌, ◌≡◌, refl, sym, ap, subst, ◌∙◌, ◌≢◌, ◌⊎◌, inl, inr, Option, none, some, List, [], ◌∷◌, arith,
  length, get_or, set,
}
use webrtc_dht.Key.{Key}
use webrtc_dht.Types.{not_found, Result, ok, err, NetworkNode, ValueMeta}
use webrtc_dht.Routing.{k, RoutingTable, bucket_index, find_closest}
use webrtc_dht.Routing.Invariant.{IsPeer}
use webrtc_dht.Routing.Closest.{contacts, IsClosest, find_closest-IsClosest}
use webrtc_dht.Routing.Effect.{see, responds, add-see}
use webrtc_dht.Storage
use webrtc_dht.Storage.Files.{Formats}
use webrtc_dht.Transport.{Transport}
use webrtc_dht.Node.{
  Node, ping_ok, add_peer, observe_peer, on_ping, on_store, on_find_node, on_find_value,
  answer_find_value, nodes_or_not_found,
}
use webrtc_dht.Node.Laws.{IsNode, add_peer-IsNode}

module _ (F : Formats) (T : Transport) (w : T.World) (node : Node) (caller : NetworkNode) where
  -- The table with the caller, by the least-recently-seen rule.
  abbrev pub noted : RoutingTable
  noted =
      let i = bucket_index node.rt caller.id in
      record node.rt {
        buckets =
            set node.rt.buckets i
              (see (get_or node.rt.buckets i []) caller (responds (ping_ok F T) w node.rt));
      }

  -- The caller is noted, and the rest of the node is as before.
  abbrev pub IsNoted : Node → Type 0
  IsNoted after =
      IsNode after
      × (after.rt ≡ noted)
      × (after.self ≡ node.self)
      × (after.has_transport ≡ node.has_transport)

  -- An answer of contacts that are nearest to a key; if the table has none, nothing is found.
  abbrev pub IsNearest : Key → Result (Option ValueMeta × List NetworkNode) → Type 0
  IsNearest key r =
      (ns : List NetworkNode) × IsClosest (contacts noted) ns key k
      × (((ns ≡ []) × (r ≡ err not_found)) ⊎ ((1 ≤ length ns) × (r ≡ ok (none, ns))))

  observed : node.rt.node_id ≢ caller.id → (observe_peer F T w node (some caller)).1.rt ≡ noted
  unfolding observe_peer add_peer
  observed foreign = add-see (ping_ok F T) w node.rt caller foreign

  nearest : (key : Key) → IsNearest key (nodes_or_not_found F T (find_closest noted key k))
  unfolding nodes_or_not_found
  nearest key = go (find_closest noted key k) (find_closest-IsClosest noted key k)
    where
      go :
          (ns : List NetworkNode)
          → IsClosest (contacts noted) ns key k
          → IsNearest key (nodes_or_not_found F T ns)
      go [] h = ([], h, inl (refl, refl))
      go (n ∷ ns) h = (n ∷ ns, h, inr (omega arith, refl))

  -- After a call of another node, whose contact has a key and is not the node itself, a correct
  -- node is correct, and has noted the caller by the least-recently-seen rule. Ping and Store
  -- report no error; Store puts the value in the storage, which no other call changes. FindNode
  -- answers with the contacts nearest to the target; FindValue with the value that is stored, or
  -- else with the contacts nearest to the key, or that nothing is found if there are none.
  pub handlers-IsNoted :
      (key target : Key) (value : ValueMeta)
      → IsNode node
      → IsPeer caller
      → node.self.id ≢ caller.id
      → let pinged = on_ping F T w node (some caller) in
        let stored = on_store F T w node (some caller) key value in
        let nodes = on_find_node F T w node (some caller) target in
        let found = on_find_value F T w node (some caller) key in
        (IsNoted pinged.1 × (pinged.1.storage ≡ node.storage) × (pinged.2 ≡ none))
        × (IsNoted stored.1
            × (stored.1.storage ≡ Storage.put F node.storage key value)
            × (stored.2 ≡ none))
        × (IsNoted nodes.1
            × (nodes.1.storage ≡ node.storage)
            × ((ns : List NetworkNode) × (nodes.2 ≡ ok ns)
                × IsClosest (contacts noted) ns target k))
        × (IsNoted found.1
            × (found.1.storage ≡ node.storage)
            × ((v : ValueMeta)
                → Storage.get F node.storage key ≡ some v
                → found.2 ≡ ok (some v, []))
            × (Storage.get F node.storage key ≡ none → IsNearest key found.2))
  unfolding on_ping on_store on_find_node on_find_value observe_peer add_peer answer_find_value
      Storage.get
  handlers-IsNoted key target value h p foreign =
      let v = add_peer-IsNode F T w node caller p h in
      let same = observed (λ e. foreign (sym h.own ∙ e)) in
      let noticed : IsNoted (add_peer F T w node caller).1 = (v, same, refl, refl) in
      (
        (noticed, refl, refl),
        ((record { table = v.table; own = v.own }, same, refl, refl), refl, refl),
        (
          noticed,
          refl,
          (
            find_closest noted target k,
            ap (λ rt. ok (find_closest rt target k)) same,
            find_closest-IsClosest noted target k,
          ),
        ),
        (
          noticed,
          refl,
          λ value' e. rw e refl,
          λ e. rw e (
              subst (λ rt. IsNearest key (nodes_or_not_found F T (find_closest rt key k)))
                (sym same) (nearest key)),
        ),
      )
