-- ===== src/Webrtc/Control/Answers.antt =====
-- transport/webrtc/webrtc.go: a call over the control channel from the request to the result, with
-- both ends of the connection.
use webrtc_dht.Prelude.{
  ◌≡◌, refl, ◌∙◌, ap, subst, Option, none, some, [], ◌∷◌, if_pos, if_neg, Text, Bytes,
}
use webrtc_dht.Prelude.Assoc
use webrtc_dht.Key.{Key, NodeId, key_eq}
use webrtc_dht.Types.{is_not_found, not_found, Result, ok, err, NetworkNode, ValueMeta}
use webrtc_dht.Node.{
  Node, observe_peer, on_ping, on_store, on_find_node, on_find_value, answer_find_value,
}
use webrtc_dht.Node.Laws.{answer_find_value_cases}
use webrtc_dht.Storage.Files.{Formats}
use webrtc_dht.Transport.{Transport}
use webrtc_dht.Json.{
  wire_node, wire_value, wire_sender, wire_payload, wire_nodes, wired_nodes, wired_value,
}
use webrtc_dht.Udp.{rpc_ping, rpc_store, rpc_find_node, rpc_find_value}
use webrtc_dht.Udp.Calls.{or_nothing, store_ne_ping, find_node_ne, find_value_ne}
use webrtc_dht.Webrtc.Control.{
  RpcMessage, rpc_message, PeerConn, rpc_request, rpc_response, rpc_reply_at, on_rpc_reply, Reply,
  silent, control, blob, set_error, set_nodes, set_value, store_request, dispatch_rpc,
  on_rpc_request, on_control_msg, begin_rpc, rpc_result, store_rpc, find_node_rpc, find_value_rpc,
  rpc_error, rpc_nodes, rpc_value,
}

-- A message that is written in JSON and read again.
abbrev pub wire_rpc : (Bytes → Bytes) → RpcMessage → RpcMessage
wire_rpc wire_ip msg = record msg {
  sender = wire_sender wire_ip msg.sender;
  payload = wire_payload msg.payload;
  value = wire_payload msg.value;
  nodes = wire_nodes wire_ip msg.nodes;
}

-- What the channel of a request holds.
abbrev held : Option (Option RpcMessage) → Option RpcMessage
held none = none
held (some ch) = ch

-- What comes to the call that has noted its request, over a channel that delivers.
abbrev pub received : PeerConn → Text → Reply → Option RpcMessage
received peer req_id silent = none
received peer req_id (control resp) =
    held (Assoc.lookup key_eq req_id (on_rpc_reply (begin_rpc peer req_id) resp).rpc_pending)
received peer req_id (blob resp bytes) = none

-- A reply with the identifier of the request reaches the call.
received-control :
    (peer : PeerConn) (resp : RpcMessage) → received peer resp.req_id (control resp) ≡ some resp
unfolding on_rpc_reply begin_rpc
received-control peer resp =
    let noted = Assoc.assign key_eq resp.req_id none peer.rpc_pending in
    ap (λ o. held (Assoc.lookup key_eq resp.req_id (rpc_reply_at noted resp o)))
      (Assoc.lookup-assign_self key_eq resp.req_id none peer.rpc_pending)
    ∙ ap held (Assoc.lookup-assign_self key_eq resp.req_id (some resp) noted)

no_error :
    (target : NodeId) (resp : RpcMessage)
    → resp.error ≡ []
    → rpc_result target none (some resp) ≡ ok resp
unfolding rpc_result
no_error target resp e = if_pos (key_eq resp.error []) e _ _

module _ (F : Formats) (T : Transport) (wire_ip : Bytes → Bytes) (own caller : NetworkNode)
    (w : T.World) (node : Node) (req_id : Text) (peer : PeerConn) (back : PeerConn) where
  -- The caller, as the other node reads of it.
  abbrev pub from : NetworkNode
  from = wire_node wire_ip caller

  -- A request as the other node answers it, and what the caller reads of the reply.
  abbrev pub call : RpcMessage → T.World × Option Node × PeerConn × Reply
  call msg =
      on_control_msg F T own w (some node) back
        (ok (wire_rpc wire_ip (rpc_request caller req_id msg)))

  abbrev pub wired : Reply → Reply
  wired silent = silent
  wired (control resp) = control (wire_rpc wire_ip resp)
  wired (blob resp bytes) = blob resp bytes

  abbrev pub read_by :
      {A : Type 0}
      → (Result RpcMessage → A)
      → T.World × Option Node × PeerConn × Reply
      → T.World × Option Node × PeerConn × A
  read_by read (w', node', peer', reply) =
      (w', node', peer', read (rpc_result own.id none (received peer req_id (wired reply))))

  -- A reply that reports no error is read as it is.
  read_by-control :
      {A : Type 0} (read : Result RpcMessage → A) (w' : T.World) (node' : Node) (resp : RpcMessage)
      → resp.req_id ≡ req_id
      → resp.error ≡ []
      → read_by read (w', some node', back, control resp)
        ≡ (w', some node', back, read (ok (wire_rpc wire_ip resp)))
  read_by-control read w' node' resp same e =
      let comes : received peer req_id (control (wire_rpc wire_ip resp))
          ≡ some (wire_rpc wire_ip resp) =
        subst
          (λ id. received peer id (control (wire_rpc wire_ip resp)) ≡ some (wire_rpc wire_ip resp))
          same (received-control peer (wire_rpc wire_ip resp)) in
      ap (λ r. (w', some node', back, read r))
        (ap (rpc_result own.id none) comes ∙ no_error own.id (wire_rpc wire_ip resp) e)

  abbrev resp_to : RpcMessage → RpcMessage
  resp_to msg = rpc_response own (rpc_request from req_id msg)

  abbrev spread : T.World × Node × Reply → T.World × Option Node × PeerConn × Reply
  spread (w', node', reply) = (w', some node', back, reply)

  call-ping :
      let h = on_ping F T w node (some from) in
      call (rpc_message rpc_ping)
      ≡ (h.0, some h.1, back, control (set_error (resp_to (rpc_message rpc_ping)) h.2))
  unfolding on_control_msg on_rpc_request dispatch_rpc
  call-ping = ap spread (if_pos (key_eq rpc_ping rpc_ping) refl _ _)

  call-store :
      (key : Key) (value : ValueMeta)
      → let h = on_store F T w node (some from) key (wire_value value) in
        call (store_rpc key value) ≡ (
          h.0,
          some h.1,
          back,
          control (set_error (resp_to (store_rpc key (wire_value value))) h.2),
        )
  unfolding on_control_msg on_rpc_request dispatch_rpc store_request
  call-store key value = ap spread (
      if_neg (key_eq rpc_store rpc_ping) store_ne_ping _ _
      ∙ if_pos (key_eq rpc_store rpc_store) refl _ _)

  call-find_node :
      (target : NodeId)
      → let h = on_find_node F T w node (some from) target in
        call (find_node_rpc target)
        ≡ (h.0, some h.1, back, control (set_nodes (resp_to (find_node_rpc target)) h.2))
  unfolding on_control_msg on_rpc_request dispatch_rpc
  call-find_node target = ap spread (
      if_neg (key_eq rpc_find_node rpc_ping) find_node_ne.0 _ _
      ∙ if_neg (key_eq rpc_find_node rpc_store) find_node_ne.1 _ _
      ∙ if_pos (key_eq rpc_find_node rpc_find_node) refl _ _)

  call-find_value :
      (key : Key)
      → let h = on_find_value F T w node (some from) key in
        call (find_value_rpc key)
        ≡ (h.0, some h.1, back, control (set_value (resp_to (find_value_rpc key)) h.2))
  unfolding on_control_msg on_rpc_request dispatch_rpc
  call-find_value key = ap spread (
      if_neg (key_eq rpc_find_value rpc_ping) find_value_ne.0 _ _
      ∙ if_neg (key_eq rpc_find_value rpc_store) find_value_ne.1 _ _
      ∙ if_neg (key_eq rpc_find_value rpc_find_node) find_value_ne.2 _ _
      ∙ if_pos (key_eq rpc_find_value rpc_find_value) refl _ _)

  -- The value of a reply without an error is read as the handler gave it.
  value_read :
      (w' : T.World) (at : Node) (key : Key)
      → read_by rpc_value (
        w',
        some at,
        back,
        control (set_value (resp_to (find_value_rpc key)) (answer_find_value F T at key)),
      )
        ≡ (w', some at, back, or_nothing (wired_value wire_ip (answer_find_value F T at key)))
  unfolding is_not_found
  value_read w' at key =
      let resp = resp_to (find_value_rpc key) in
      answer_find_value_cases F T
        (λ r.
          read_by rpc_value (w', some at, back, control (set_value resp r))
          ≡ (w', some at, back, or_nothing (wired_value wire_ip r)))
        at key
        (λ value. read_by-control rpc_value w' at (set_value resp (ok (some value, []))) refl refl)
        (λ n rest. read_by-control rpc_value w' at (set_value resp (ok (none, n ∷ rest))) refl refl)
        (read_by-control rpc_value w' at (set_value resp (err not_found)) refl refl)

  -- A call over the control channel whose request and reply are written in JSON, delivered and read
  -- is a call of the handler of the other node, with the caller as sender and the value as they are
  -- read from JSON, whatever waits on either side: the world and the node are as the handler leaves
  -- them, the connection at its end is as before, and the caller has the result of the handler, its
  -- contacts and value as they are read from JSON; only that a value that is not found is no error
  -- but nothing.
  pub on_control_msg_lem :
      (target : NodeId) (key : Key) (value : ValueMeta)
      → let pinged = on_ping F T w node (some from) in
        let stored = on_store F T w node (some from) key (wire_value value) in
        let nodes = on_find_node F T w node (some from) target in
        let found = on_find_value F T w node (some from) key in
        (read_by rpc_error (call (rpc_message rpc_ping))
          ≡ (pinged.0, some pinged.1, back, pinged.2))
        × (read_by rpc_error (call (store_rpc key value))
            ≡ (stored.0, some stored.1, back, stored.2))
        × (read_by rpc_nodes (call (find_node_rpc target))
            ≡ (nodes.0, some nodes.1, back, wired_nodes wire_ip nodes.2))
        × (read_by rpc_value (call (find_value_rpc key))
            ≡ (found.0, some found.1, back, or_nothing (wired_value wire_ip found.2)))
  unfolding on_ping on_store on_find_node on_find_value
  on_control_msg_lem target key value =
      let noted = observe_peer F T w node (some from) in
      (
        ap (read_by rpc_error) call-ping
            ∙ read_by-control rpc_error _ _ (set_error (resp_to (rpc_message rpc_ping)) none) refl
                refl,
        ap (read_by rpc_error) (call-store key value)
            ∙ read_by-control rpc_error _ _
                (set_error (resp_to (store_rpc key (wire_value value))) none) refl refl,
        ap (read_by rpc_nodes) (call-find_node target)
            ∙ read_by-control rpc_nodes _ _
                (set_nodes (resp_to (find_node_rpc target))
                  (on_find_node F T w node (some from) target).2)
                refl refl,
        ap (read_by rpc_value) (call-find_value key) ∙ value_read noted.0 noted.1 key,
      )
