-- ===== src/Webrtc/Control.antt =====
-- transport/webrtc/webrtc.go: calls as messages on the control channel of a peer. A message is
-- passed as a value: its text in JSON is not modelled. The deadlines are: a channel that is waited
-- for is ready or not when the wait ends, and an answer comes in time or not.
pub mod Same
pub mod Fetch
pub mod Answers
use webrtc_dht.Prelude.{
  ℕ, Bool, true, false, Option, none, some, List, [], ◌∷◌, ◌++◌, ite, if◌then◌else◌, Text, Bytes,
  codes, replicate,
}
use webrtc_dht.Prelude.Assoc
use webrtc_dht.Key.{Key, NodeId, key_eq}
use webrtc_dht.Key.Hex.{hex_encode}
use webrtc_dht.Types.{
  Error, not_found, message, error_text, is_not_found, Result, ok, err, NetworkNode, ValueMeta,
}
use webrtc_dht.Node.{Node, on_ping, on_store, on_find_node, on_find_value, on_fetch_blob}
use webrtc_dht.Storage.Files.{Formats}
use webrtc_dht.Transport.{Transport}
use webrtc_dht.Udp.{rpc_ping, rpc_store, rpc_find_node, rpc_find_value}
use webrtc_dht.Webrtc.{BlobPending, send_blob_chunked}

-- dht/transport.go
abbrev pub rpc_fetch_blob : Text
rpc_fetch_blob = codes "FETCH_BLOB"

-- The field `Data` is `payload`.
pub record RpcMessage : Type 0 where
  pub kind : Text
  pub is_req : Bool
  pub req_id : Text
  pub sender : Option NetworkNode
  pub target_id : NodeId
  pub key : Key
  pub ref : Text
  pub payload : Option ValueMeta
  pub value : Option ValueMeta
  pub nodes : List NetworkNode
  pub error : Text

-- `rpcMessage{Type: kind}`
abbrev pub rpc_message : Text → RpcMessage
rpc_message kind = record {
  kind = kind;
  is_req = false;
  req_id = [];
  sender = none;
  target_id = replicate 20 0;
  key = replicate 20 0;
  ref = [];
  payload = none;
  value = none;
  nodes = [];
  error = [];
}

-- The map `rpcPending`: for each request the channel of capacity one.
abbrev pub RpcPending : Type 0
RpcPending = List (Text × Option RpcMessage)

-- `pc` names the connection, and the flags are whether its channels have opened.
pub record PeerConn : Type 0 where
  pub pc : ℕ
  pub control_ready : Bool
  pub blob_ready : Bool
  pub rpc_pending : RpcPending
  pub blob_pending : BlobPending

unfoldable pub new_peer_conn : ℕ → PeerConn
new_peer_conn pc = record {
  pc = pc;
  control_ready = false;
  blob_ready = false;
  rpc_pending = [];
  blob_pending = [];
}

-- What `sendRPC` adds to a message.
abbrev pub rpc_request : NetworkNode → Text → RpcMessage → RpcMessage
rpc_request own req_id msg = record msg { sender = some own; is_req = true; req_id = req_id }

abbrev pub rpc_response : NetworkNode → RpcMessage → RpcMessage
rpc_response own msg = record (rpc_message msg.kind) { req_id = msg.req_id; sender = some own }

abbrev pub fill_reply : Option RpcMessage → RpcMessage → Option RpcMessage
fill_reply none msg = some msg
fill_reply (some first) msg = some first

rpc_reply_at : RpcPending → RpcMessage → Option (Option RpcMessage) → RpcPending
rpc_reply_at pending msg none = pending
rpc_reply_at pending msg (some ch) = Assoc.assign key_eq msg.req_id (fill_reply ch msg) pending

-- A message that is no request.
unfoldable pub on_rpc_reply : PeerConn → RpcMessage → PeerConn
unfolding rpc_reply_at
on_rpc_reply peer msg = record peer {
  rpc_pending = rpc_reply_at peer.rpc_pending msg (Assoc.lookup key_eq msg.req_id peer.rpc_pending);
}

-- What answers a request: a message on the control channel, or frames on the other; `blob` has the
-- answer that reports an error of sending them.
pub data Reply : Type 0 where
  silent : Reply
  control : RpcMessage → Reply
  blob : RpcMessage → Bytes → Reply

abbrev pub set_error : RpcMessage → Option Error → RpcMessage
set_error resp none = resp
set_error resp (some e) = record resp { error = error_text e }

abbrev pub set_nodes : RpcMessage → Result (List NetworkNode) → RpcMessage
set_nodes resp (err e) = record resp { error = error_text e }
set_nodes resp (ok nodes) = record resp { nodes = nodes }

abbrev pub set_value : RpcMessage → Result (Option ValueMeta × List NetworkNode) → RpcMessage
set_value resp (err e) =
    if is_not_found e
    then record resp { value = none; nodes = [] }
    else record resp { error = error_text e }
set_value resp (ok (value, nodes)) = record resp { value = value; nodes = nodes }

unfoldable pub blob_reply : RpcMessage → Bool → Result Bytes → Reply
blob_reply resp ready (err e) = control (record resp { error = error_text e })
blob_reply resp ready (ok bytes) =
    if ready
    then blob resp bytes
    else control (record resp { error = codes "blob channel not ready" })

module _ (F : Formats) (T : Transport) (own : NetworkNode) where
  open T use {World}

  store_request : World → Node → RpcMessage → Option ValueMeta → World × Node × Reply
  store_request w node msg none =
      (w, node, control (record (rpc_response own msg) { error = codes "missing data" }))
  store_request w node msg (some value) =
      let (w', node', e) = on_store F T w node msg.sender msg.key value in
      (w', node', control (set_error (rpc_response own msg) e))

  -- The answer of a node whose blob channel is ready or not.
  unfoldable pub dispatch_rpc : World → Node → Bool → RpcMessage → World × Node × Reply
  unfolding store_request
  dispatch_rpc w node ready msg =
      let pinged = on_ping F T w node msg.sender in
      let nodes = on_find_node F T w node msg.sender msg.target_id in
      let value = on_find_value F T w node msg.sender msg.key in
      let resp = rpc_response own msg in
      ite (key_eq msg.kind rpc_ping) (pinged.0, pinged.1, control (set_error resp pinged.2))
        (ite (key_eq msg.kind rpc_store) (store_request w node msg msg.payload) (
          ite (key_eq msg.kind rpc_find_node) (nodes.0, nodes.1, control (set_nodes resp nodes.2))
            (ite (key_eq msg.kind rpc_find_value)
              (value.0, value.1, control (set_value resp value.2))
              (ite (key_eq msg.kind rpc_fetch_blob)
                (w, node, blob_reply resp ready (on_fetch_blob F T node msg.sender msg.ref))
                (w, node, control (record resp { error = codes "unknown rpc: " ++ msg.kind }))))))

  -- A request, where the handler may not be set.
  unfoldable pub on_rpc_request :
      World → Option Node → Bool → RpcMessage → World × Option Node × Reply
  on_rpc_request w none ready msg =
      (w, none, control (record (rpc_response own msg) { error = codes "handler not set" }))
  on_rpc_request w (some node) ready msg =
      let (w', node', reply) = dispatch_rpc w node ready msg in (w', some node', reply)

  -- A message, or the error of reading it.
  unfoldable pub on_control_msg :
      World → Option Node → PeerConn → Result RpcMessage → World × Option Node × PeerConn × Reply
  on_control_msg w node peer (err e) = (w, node, peer, silent)
  on_control_msg w node peer (ok msg) =
      let (w', node', reply) = on_rpc_request w node peer.blob_ready msg in
      if msg.is_req then (w', node', peer, reply) else (w, node, on_rpc_reply peer msg, silent)

module _ {W : Type 0} (send : W → Bytes → W × Option Error) where
  blob_sent : RpcMessage → Option (W × Option Error) → Option (W × Option RpcMessage)
  blob_sent resp none = none
  blob_sent resp (some (w, none)) = some (w, none)
  blob_sent resp (some (w, some e)) = some (w, some (record resp { error = error_text e }))

  -- How a reply goes out: frames are sent by `send`, and the message is put on the control channel.
  -- The first `none` means that the fuel ran out.
  unfoldable pub send_reply : ℕ → W → Reply → Option (W × Option RpcMessage)
  unfolding blob_sent
  send_reply fuel w silent = some (w, none)
  send_reply fuel w (control msg) = some (w, some msg)
  send_reply fuel w (blob resp bytes) =
      blob_sent resp (send_blob_chunked send resp.req_id bytes fuel w)

-- `sendRPC` up to the wait, after the peer is found; and its deferred function.
unfoldable pub begin_rpc : PeerConn → Text → PeerConn
begin_rpc peer req_id = record peer {
  rpc_pending = Assoc.assign key_eq req_id none peer.rpc_pending;
}

unfoldable pub end_rpc : PeerConn → Text → PeerConn
end_rpc peer req_id = record peer { rpc_pending = Assoc.remove key_eq req_id peer.rpc_pending }

-- Its result, given the error of `Send` and the answer, if one comes in time.
unfoldable pub rpc_result : NodeId → Option Error → Option RpcMessage → Result RpcMessage
rpc_result target (some e) answer = err e
rpc_result target none none = err (message (codes "rpc timeout to " ++ hex_encode target))
rpc_result target none (some resp) =
    ite (key_eq resp.error []) (ok resp)
      (ite (key_eq resp.error (error_text not_found)) (err not_found) (err (message resp.error)))

-- The messages of `Store`, `FindNode` and `FindValue`.
abbrev pub store_rpc : Key → ValueMeta → RpcMessage
store_rpc key value = record (rpc_message rpc_store) { key = key; payload = some value }

abbrev pub find_node_rpc : NodeId → RpcMessage
find_node_rpc target = record (rpc_message rpc_find_node) { target_id = target }

abbrev pub find_value_rpc : Key → RpcMessage
find_value_rpc key = record (rpc_message rpc_find_value) { key = key }

-- The results of `Ping` and `Store`, `FindNode` and `FindValue`.
abbrev pub rpc_error : Result RpcMessage → Option Error
rpc_error (ok resp) = none
rpc_error (err e) = some e

abbrev pub rpc_nodes : Result RpcMessage → Result (List NetworkNode)
rpc_nodes (ok resp) = ok resp.nodes
rpc_nodes (err e) = err e

abbrev pub rpc_value : Result RpcMessage → Result (Option ValueMeta × List NetworkNode)
rpc_value (ok resp) = ok (resp.value, resp.nodes)
rpc_value (err e) = if is_not_found e then ok (none, []) else err e

-- `FetchBlob`, when the blob channel is ready: its message, what it notes before the wait, its
-- deferred function, and its result by what ends the wait.
unfoldable pub fetch_msg : NetworkNode → Text → Text → RpcMessage
fetch_msg own req_id ref = record (rpc_message rpc_fetch_blob) {
  req_id = req_id;
  sender = some own;
  is_req = true;
  ref = ref;
}

unfoldable pub begin_fetch : PeerConn → Text → PeerConn
begin_fetch peer req_id = record peer {
  blob_pending = Assoc.assign key_eq req_id (record { buf = []; ch = none }) peer.blob_pending;
  rpc_pending = Assoc.assign key_eq req_id none peer.rpc_pending;
}

unfoldable pub end_fetch : PeerConn → Text → PeerConn
end_fetch peer req_id = record peer {
  blob_pending = Assoc.remove key_eq req_id peer.blob_pending;
  rpc_pending = Assoc.remove key_eq req_id peer.rpc_pending;
}

pub data FetchWake : Type 0 where
  got : Bytes → FetchWake
  failed : RpcMessage → FetchWake
  expired : FetchWake

unfoldable pub fetch_result : NodeId → Option Error → FetchWake → Result Bytes
fetch_result target (some e) wake = err e
fetch_result target none (got bytes) = ok bytes
fetch_result target none (failed msg) = err (message msg.error)
fetch_result target none expired =
    err (message (codes "blob fetch timeout from " ++ hex_encode target))
