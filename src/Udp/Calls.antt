-- ===== src/Udp/Calls.antt =====
-- transport/udp/udp.go: a call that is answered has the result of the handler.
use webrtc_dht.Prelude.{
  ◌≡◌, refl, ◌∙◌, ap, ◌≢◌, Option, none, some, List, [], ◌++◌, if_pos, if_neg, Text, Bytes, codes,
}
use webrtc_dht.Key.{Key, NodeId, key_eq}
use webrtc_dht.Types.{is_not_found, Result, ok, err, NetworkNode, ValueMeta}
use webrtc_dht.Node.{
  Node, observe_peer, on_ping, on_store, on_find_node, on_find_value, answer_find_value,
}
use webrtc_dht.Node.Laws.{
  IsNode, IsCaller, handlers-IsNode, observe_peer-IsNode, answer_find_value_cases,
}
use webrtc_dht.Storage.Files.{Formats}
use webrtc_dht.Transport.{Transport}
use webrtc_dht.Json.{wire_node, wire_value, wired_nodes, wired_value}
use webrtc_dht.Udp.{
  wire, Message, rpc_ping, rpc_store, rpc_find_node, rpc_find_value, plain, request, response,
  with_error, with_nodes, with_value, store_payload, dispatch, answer_of, error_of, nodes_of,
  value_of,
}

-- A value that is not found is no error, and has no nodes.
abbrev pub or_nothing :
    Result (Option ValueMeta × List NetworkNode) → Result (Option ValueMeta × List NetworkNode)
or_nothing (ok answer) = ok answer
or_nothing (err e) = ok (none, [])

no_error : (m : Message) → m.error ≡ [] → answer_of m ≡ ok m
unfolding answer_of
no_error m e = if_pos (key_eq m.error []) e _ _

pub store_ne_ping : rpc_store ≢ rpc_ping
unfolding codes
store_ne_ping e = cc

pub find_node_ne : (rpc_find_node ≢ rpc_ping) × (rpc_find_node ≢ rpc_store)
unfolding codes
find_node_ne = ((λ e. cc), (λ e. cc))

pub find_value_ne :
    (rpc_find_value ≢ rpc_ping) × (rpc_find_value ≢ rpc_store) × (rpc_find_value ≢ rpc_find_node)
unfolding codes
find_value_ne = ((λ e. cc), (λ e. cc), (λ e. cc))

module _ (F : Formats) (T : Transport) (own : NetworkNode) where
  -- The branches of the dispatch.
  pub dispatch_cases {ℓ} :
      (P : T.World × Node × Message → Type ℓ) (w : T.World) (node : Node) (msg : Message)
      → let pinged = on_ping F T w node msg.sender in
        let nodes = on_find_node F T w node msg.sender msg.target_id in
        let value = on_find_value F T w node msg.sender msg.key in
        P (pinged.0, pinged.1, with_error (response own msg) pinged.2)
        → P (store_payload F T own w node msg msg.payload)
        → P (nodes.0, nodes.1, with_nodes (response own msg) nodes.2)
        → P (value.0, value.1, with_value (response own msg) value.2)
        → P (w, node, record (response own msg) { error = codes "unsupported rpc: " ++ msg.kind })
        → P (dispatch F T own w node msg)
  unfolding dispatch
  dispatch_cases P w node msg ping store find value other = elim (key_eq msg.kind rpc_ping) [
    | yes a ↦ rw (if_pos _ a) ping
    | no a ↦ rw (if_neg _ a) (elim (key_eq msg.kind rpc_store) [
      | yes b ↦ rw (if_pos _ b) store
      | no b ↦ rw (if_neg _ b) (elim (key_eq msg.kind rpc_find_node) [
        | yes c ↦ rw (if_pos _ c) find
        | no c ↦ rw (if_neg _ c) (elim (key_eq msg.kind rpc_find_value) [
          | yes d ↦ rw (if_pos _ d) value
          | no d ↦ rw (if_neg _ d) other
        ])
      ])
    ])
  ]

  store_payload-IsNode :
      (w : T.World) (node : Node) (msg : Message) (payload : Option ValueMeta)
      → IsCaller msg.sender
      → IsNode node
      → IsNode (store_payload F T own w node msg payload).1
  unfolding store_payload
  store_payload-IsNode w node msg none p h = h
  store_payload-IsNode w node msg (some value) p h =
      (handlers-IsNode F T w node msg.sender msg.key value p h).1

  -- Whatever message comes from a node that has a key, or from one that does not name itself,
  -- a correct node stays correct.
  pub dispatch-IsNode :
      (w : T.World) (node : Node) (msg : Message)
      → IsCaller msg.sender
      → IsNode node
      → IsNode (dispatch F T own w node msg).1
  unfolding on_ping on_find_node on_find_value
  dispatch-IsNode w node msg p h =
      let v = observe_peer-IsNode F T w node msg.sender p h in
      dispatch_cases (λ r. IsNode r.1) w node msg v
        (store_payload-IsNode w node msg msg.payload p h) v v h

  module _ (wire_ip : Bytes → Bytes) (caller : NetworkNode) (w : T.World) (node : Node)
      (req_id : Text) where
    -- The caller, as the other node reads of it.
    abbrev pub from : NetworkNode
    from = wire_node wire_ip caller

    abbrev pub call : Message → T.World × Node × Message
    call msg = dispatch F T own w node (wire wire_ip (request caller req_id msg))

    -- The messages of `Ping`, `Store`, `FindNode` and `FindValue`.
    abbrev pub store_message : Key → ValueMeta → Message
    store_message key value = record (plain rpc_store) { key = key; payload = some value }

    abbrev pub find_node_message : NodeId → Message
    find_node_message target = record (plain rpc_find_node) { target_id = target }

    abbrev pub find_value_message : Key → Message
    find_value_message key = record (plain rpc_find_value) { key = key }

    dispatch-ping :
        let msg = request from req_id (plain rpc_ping) in
        let h = on_ping F T w node (some from) in
        call (plain rpc_ping) ≡ (h.0, h.1, with_error (response own msg) h.2)
    unfolding dispatch
    dispatch-ping = if_pos (key_eq rpc_ping rpc_ping) refl _ _

    dispatch-store :
        (key : Key) (value : ValueMeta)
        → call (store_message key value) ≡ (
          (on_store F T w node (some from) key (wire_value value)).0,
          (on_store F T w node (some from) key (wire_value value)).1,
          response own (request from req_id (store_message key (wire_value value))),
        )
    unfolding dispatch store_payload on_store
    dispatch-store key value =
        if_neg (key_eq rpc_store rpc_ping) store_ne_ping _ _
        ∙ if_pos (key_eq rpc_store rpc_store) refl _ _

    dispatch-find_node :
        (target : NodeId)
        → let msg = request from req_id (find_node_message target) in
          let h = on_find_node F T w node (some from) target in
          call (find_node_message target) ≡ (h.0, h.1, with_nodes (response own msg) h.2)
    unfolding dispatch
    dispatch-find_node target =
        if_neg (key_eq rpc_find_node rpc_ping) find_node_ne.0 _ _
        ∙ if_neg (key_eq rpc_find_node rpc_store) find_node_ne.1 _ _
        ∙ if_pos (key_eq rpc_find_node rpc_find_node) refl _ _

    dispatch-find_value :
        (key : Key)
        → let msg = request from req_id (find_value_message key) in
          let h = on_find_value F T w node (some from) key in
          call (find_value_message key) ≡ (h.0, h.1, with_value (response own msg) h.2)
    unfolding dispatch
    dispatch-find_value key =
        if_neg (key_eq rpc_find_value rpc_ping) find_value_ne.0 _ _
        ∙ if_neg (key_eq rpc_find_value rpc_store) find_value_ne.1 _ _
        ∙ if_neg (key_eq rpc_find_value rpc_find_node) find_value_ne.2 _ _
        ∙ if_pos (key_eq rpc_find_value rpc_find_value) refl _ _

    value_answer :
        (m : Message) (at : Node) (key : Key)
        → m.error ≡ []
        → m.value ≡ none
        → m.nodes ≡ []
        → value_of (answer_of (wire wire_ip (with_value m (answer_find_value F T at key))))
          ≡ or_nothing (wired_value wire_ip (answer_find_value F T at key))
    unfolding is_not_found
    value_answer m at key e v n =
        answer_find_value_cases F T
          (λ r.
            value_of (answer_of (wire wire_ip (with_value m r)))
            ≡ or_nothing (wired_value wire_ip r))
          at key (λ value. ap value_of (no_error _ e)) (λ _ _. ap value_of (no_error _ e))
          (ap value_of (no_error _ e))

    found_value :
        (key : Key)
        → let msg = response own (request from req_id (find_value_message key)) in
          let h = on_find_value F T w node (some from) key in
          value_of (answer_of (wire wire_ip (with_value msg h.2)))
          ≡ or_nothing (wired_value wire_ip h.2)
    unfolding on_find_value
    found_value key =
        value_answer (response own (request from req_id (find_value_message key)))
          (observe_peer F T w node (some from)).1 key refl refl refl

    -- What the caller makes of an answer, with the other node and the world.
    abbrev pub called :
        {A : Type 0} → (Result Message → A) → T.World × Node × Message → T.World × Node × A
    called read (w', node', resp) = (w', node', read (answer_of (wire wire_ip resp)))

    -- The messages of Ping, Store, FindNode and FindValue, answered by the dispatch of another
    -- node, with both messages written in JSON and read again, are calls of the handlers, with the
    -- caller as sender and the value as they are read from JSON: the world and the other node are
    -- as the handler leaves them, and the caller has the result of the handler, its contacts and
    -- value as they are read from JSON, except that a value that is not found is no error but
    -- nothing.
    pub dispatch_lem :
        (target : NodeId) (key : Key) (value : ValueMeta)
        → let (w₁, node₁, nodes) = on_find_node F T w node (some from) target in
          let (w₂, node₂, found) = on_find_value F T w node (some from) key in
          (called error_of (call (plain rpc_ping)) ≡ on_ping F T w node (some from))
          × (called error_of (call (store_message key value))
              ≡ on_store F T w node (some from) key (wire_value value))
          × (called nodes_of (call (find_node_message target))
              ≡ (w₁, node₁, wired_nodes wire_ip nodes))
          × (called value_of (call (find_value_message key))
              ≡ (w₂, node₂, or_nothing (wired_value wire_ip found)))
    unfolding on_ping on_store on_find_node answer_of key_eq
    dispatch_lem target key value = (
      rw dispatch-ping,
      rw (dispatch-store key value),
      rw (dispatch-find_node target),
      rw (dispatch-find_value key) (
          ap
            (λ (r : Result (Option ValueMeta × List NetworkNode)). (
              (on_find_value F T w node (some from) key).0,
              (on_find_value F T w node (some from) key).1,
              r,
            ))
            (found_value key)),
    )
