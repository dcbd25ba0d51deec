-- ===== src/Webrtc/Control/Same.antt =====
-- transport/webrtc/webrtc.go and transport/udp/udp.go: both answer a request alike.
use webrtc_dht.Prelude.{
  ◌≡◌, refl, ap, ◌≢◌, ◌⊎◌, inl, inr, Bool, Option, none, some, List, [], ◌++◌, ite, if_neg, Text,
  codes, arith,
}
use webrtc_dht.Key.{key_eq}
use webrtc_dht.Types.{Error, Result, ok, err, NetworkNode, ValueMeta}
use webrtc_dht.Node.{Node, on_store}
use webrtc_dht.Storage.Files.{Formats}
use webrtc_dht.Transport.{Transport}
use webrtc_dht.Udp.{
  Message, rpc_ping, rpc_store, rpc_find_node, rpc_find_value, response, with_error, with_nodes,
  with_value, store_payload, dispatch, handle_request,
}
use webrtc_dht.Webrtc.Control.{
  RpcMessage, rpc_fetch_blob, rpc_response, Reply, silent, control, blob, set_error, set_nodes,
  set_value, store_request, dispatch_rpc, on_rpc_request,
}

-- A message as that of the other transport, which has no reference of a blob.
abbrev pub to_message : RpcMessage → Message
to_message m = record {
  kind = m.kind;
  is_req = m.is_req;
  req_id = m.req_id;
  sender = m.sender;
  target_id = m.target_id;
  key = m.key;
  payload = m.payload;
  value = m.value;
  nodes = m.nodes;
  error = m.error;
}

-- Two answers that are equal, or that both report an error and are equal but for its text.
abbrev pub IsAlike : Message → Message → Type 0
IsAlike m n = (m ≡ n) ⊎ ((m.error ≢ []) × (n.error ≢ []) × (m ≡ record n { error = m.error }))

-- A reply on the control channel that is like an answer.
unfoldable pub IsReplyAlike : Reply → Message → Type 0
IsReplyAlike silent n = ⊥
IsReplyAlike (control m) n = IsAlike (to_message m) n
IsReplyAlike (blob m bytes) n = ⊥

set_error-with_error :
    (own : NetworkNode) (m : RpcMessage) (e : Option Error)
    → to_message (set_error (rpc_response own m) e) ≡ with_error (response own (to_message m)) e
set_error-with_error own m none = refl
set_error-with_error own m (some e) = refl

set_nodes-with_nodes :
    (own : NetworkNode) (m : RpcMessage) (r : Result (List NetworkNode))
    → to_message (set_nodes (rpc_response own m) r) ≡ with_nodes (response own (to_message m)) r
set_nodes-with_nodes own m (ok nodes) = refl
set_nodes-with_nodes own m (err e) = refl

set_value-with_value :
    (own : NetworkNode) (m : RpcMessage) (r : Result (Option ValueMeta × List NetworkNode))
    → to_message (set_value (rpc_response own m) r) ≡ with_value (response own (to_message m)) r
set_value-with_value own m (ok (value, nodes)) = refl
set_value-with_value own m (err e) = ground arith

-- The same world and the same node, and answers that are alike.
pub record IsSame {W A : Type 0} (x : W × A × Reply) (y : W × A × Message) : Type 0 where
  pub world : x.0 ≡ y.0
  pub node : x.1 ≡ y.1
  pub reply : IsReplyAlike x.2 y.2

-- Where both sides test the same.
both :
    {P W A : Type 0} (d : Dec P) {r s : W × A × Reply} {m n : W × A × Message}
    → (P → IsSame r m)
    → (¬ P → IsSame s n)
    → IsSame (ite d r s) (ite d m n)
both (yes p) h g = h p
both (no p) h g = g p

module _ (F : Formats) (T : Transport) (own : NetworkNode) (w : T.World) (msg : RpcMessage) where
  abbrev told : RpcMessage → Text → Message
  told m text = record (response own (to_message m)) { error = text }

  alike_errors :
      (s t : Text)
      → s ≢ []
      → t ≢ []
      → IsReplyAlike (control (record (rpc_response own msg) { error = s })) (told msg t)
  unfolding IsReplyAlike
  alike_errors s t p q = inr (p, q, refl)

  missing-ne : (codes "missing data" ≢ []) × (codes "data is missing" ≢ [])
  unfolding codes
  missing-ne = ((λ e. cc), (λ e. cc))

  unknown-ne :
      (codes "unknown rpc: " ++ msg.kind ≢ []) × (codes "unsupported rpc: " ++ msg.kind ≢ [])
  unfolding codes
  unknown-ne = ((λ e. cc), (λ e. cc))

  unset-ne : (codes "handler not set" ≢ []) × (codes "rpc handler is not configured" ≢ [])
  unfolding codes
  unset-ne = ((λ e. cc), (λ e. cc))

  store-IsSame :
      (node : Node) (payload : Option ValueMeta)
      → IsSame
          (store_request F T own w node msg payload)
          (store_payload F T own w node (to_message msg) payload)
  unfolding store_request store_payload IsReplyAlike
  store-IsSame node none = record {
    world = refl;
    node = refl;
    reply = alike_errors (codes "missing data") (codes "data is missing") missing-ne.0 missing-ne.1;
  }
  store-IsSame node (some value) = record {
    world = refl;
    node = refl;
    reply = inl (set_error-with_error own msg (on_store F T w node msg.sender msg.key value).2);
  }

  dispatch_rpc-IsSame :
      (node : Node) (ready : Bool)
      → msg.kind ≢ rpc_fetch_blob
      → IsSame (dispatch_rpc F T own w node ready msg) (dispatch F T own w node (to_message msg))
  unfolding dispatch_rpc dispatch IsReplyAlike
  dispatch_rpc-IsSame node ready h =
      both (key_eq msg.kind rpc_ping)
        (λ e. record { world = refl; node = refl; reply = inl (set_error-with_error own msg _) })
        (λ a.
          both (key_eq msg.kind rpc_store) (λ e. store-IsSame node msg.payload)
            (λ b.
              both (key_eq msg.kind rpc_find_node)
                (λ e. record {
                  world = refl;
                  node = refl;
                  reply = inl (set_nodes-with_nodes own msg _);
                })
                (λ c.
                  both (key_eq msg.kind rpc_find_value)
                    (λ e. record {
                      world = refl;
                      node = refl;
                      reply = inl (set_value-with_value own msg _);
                    })
                    (λ d. rw (if_neg (key_eq msg.kind rpc_fetch_blob) h) (record {
                      world = refl;
                      node = refl;
                      reply = alike_errors _ _ unknown-ne.0 unknown-ne.1;
                    })))))

  -- A request for anything but a blob is answered over WebRTC as over UDP, whether the handler is
  -- set or not, and whatever the request holds: the world and the node are the same afterwards, and
  -- so is the answer; only that an error that the transport itself reports has another text.
  pub on_rpc_request-handle_request :
      (node : Option Node) (ready : Bool)
      → msg.kind ≢ rpc_fetch_blob
      → IsSame
          (on_rpc_request F T own w node ready msg)
          (handle_request F T own w node (to_message msg))
  unfolding on_rpc_request handle_request
  on_rpc_request-handle_request none ready h = record {
    world = refl;
    node = refl;
    reply =
        alike_errors (codes "handler not set") (codes "rpc handler is not configured") unset-ne.0
          unset-ne.1;
  }
  on_rpc_request-handle_request (some node) ready h =
      let same = dispatch_rpc-IsSame node ready h in
      record { world = same.world; node = ap some same.node; reply = same.reply }
