-- ===== src/Udp.antt =====
-- transport/udp/udp.go: calls as messages. A message is passed as a value, and
-- `wire` is what is read of its text in JSON; the text itself and the socket are not modelled, nor is the service that finds the public address.
pub mod Blob
pub mod Calls
pub mod Replies
pub mod Client
pub mod Public
pub mod Server
use webrtc_dht.Prelude.{
  ℕ, zero, suc, Bool, true, false, Option, none, some, List, [], ◌++◌, ite, not, if◌then◌else◌,
  Text, Bytes, codes, decimal, replicate,
}
use webrtc_dht.Json.{wire_sender, wire_payload, wire_nodes}
use webrtc_dht.Prelude.Assoc
use webrtc_dht.Key.{Key, NodeId, key_eq}
use webrtc_dht.Types.{
  Error, not_found, message, error_text, is_not_found, Result, ok, err, NetworkNode, ValueMeta,
}
use webrtc_dht.Node.{Node, on_ping, on_store, on_find_node, on_find_value}
use webrtc_dht.Storage.Files.{Formats}
use webrtc_dht.Transport.{Transport}

-- The constants of dht/transport.go.
abbrev pub rpc_ping : Text
rpc_ping = codes "PING"

abbrev pub rpc_store : Text
rpc_store = codes "STORE"

abbrev pub rpc_find_node : Text
rpc_find_node = codes "FIND_NODE"

abbrev pub rpc_find_value : Text
rpc_find_value = codes "FIND_VALUE"

-- The field `Data` is `payload`.
pub record Message : Type 0 where
  pub kind : Text
  pub is_req : Bool
  pub req_id : Text
  pub sender : Option NetworkNode
  pub target_id : NodeId
  pub key : Key
  pub payload : Option ValueMeta
  pub value : Option ValueMeta
  pub nodes : List NetworkNode
  pub error : Text

-- The keys of a message are arrays, whose zero value is 20 zeros.
abbrev pub no_key : Key
no_key = replicate 20 0

-- `message{Type: kind}`
abbrev pub plain : Text → Message
plain kind = record {
  kind = kind;
  is_req = false;
  req_id = [];
  sender = none;
  target_id = no_key;
  key = no_key;
  payload = none;
  value = none;
  nodes = [];
  error = [];
}

-- A message that is written in JSON and read again.
abbrev pub wire : (Bytes → Bytes) → Message → Message
wire wire_ip msg = record msg {
  sender = wire_sender wire_ip msg.sender;
  payload = wire_payload msg.payload;
  value = wire_payload msg.value;
  nodes = wire_nodes wire_ip msg.nodes;
}

-- What `sendReq` adds to a message.
abbrev pub request : NetworkNode → Text → Message → Message
request own req_id msg = record msg { sender = some own; is_req = true; req_id = req_id }

-- The empty answer to a request.
abbrev pub response : NetworkNode → Message → Message
response own msg = record (plain msg.kind) { req_id = msg.req_id; sender = some own }

abbrev pub with_error : Message → Option Error → Message
with_error resp none = resp
with_error resp (some e) = record resp { error = error_text e }

abbrev pub with_nodes : Message → Result (List NetworkNode) → Message
with_nodes resp (err e) = record resp { error = error_text e }
with_nodes resp (ok nodes) = record resp { nodes = nodes }

abbrev pub with_value : Message → Result (Option ValueMeta × List NetworkNode) → Message
with_value resp (err e) =
    if is_not_found e
    then record resp { value = none; nodes = [] }
    else record resp { error = error_text e }
with_value resp (ok (value, nodes)) = record resp { value = value; nodes = nodes }

module _ (F : Formats) (T : Transport) (own : NetworkNode) where
  open T use {World}

  unfoldable pub store_payload : World → Node → Message → Option ValueMeta → World × Node × Message
  store_payload w node msg none =
      (w, node, record (response own msg) { error = codes "data is missing" })
  store_payload w node msg (some value) =
      let (w', node', e) = on_store F T w node msg.sender msg.key value in
      (w', node', with_error (response own msg) e)

  unfoldable pub dispatch : World → Node → Message → World × Node × Message
  unfolding store_payload
  dispatch w node msg =
      let pinged = on_ping F T w node msg.sender in
      let nodes = on_find_node F T w node msg.sender msg.target_id in
      let value = on_find_value F T w node msg.sender msg.key in
      ite (key_eq msg.kind rpc_ping) (pinged.0, pinged.1, with_error (response own msg) pinged.2)
        (ite (key_eq msg.kind rpc_store) (store_payload w node msg msg.payload) (
          ite (key_eq msg.kind rpc_find_node)
            (nodes.0, nodes.1, with_nodes (response own msg) nodes.2)
            (ite (key_eq msg.kind rpc_find_value)
              (value.0, value.1, with_value (response own msg) value.2)
              (
                w,
                node,
                record (response own msg) { error = codes "unsupported rpc: " ++ msg.kind },
              ))))

  -- The answer to a request, where the handler may not be set.
  unfoldable pub handle_request : World → Option Node → Message → World × Option Node × Message
  handle_request w none msg =
      (w, none, record (response own msg) { error = codes "rpc handler is not configured" })
  handle_request w (some node) msg =
      let (w', node', resp) = dispatch w node msg in (w', some node', resp)

-- The map `pendingRequests`: for each request the channel of capacity one.
abbrev pub Pending : Type 0
Pending = List (Text × Option Message)

abbrev pub offer : Option Message → Message → Option Message
offer none msg = some msg
offer (some first) msg = some first

unfoldable pub reply_at : Pending → Message → Option (Option Message) → Pending
reply_at pending msg none = pending
reply_at pending msg (some ch) = Assoc.assign key_eq msg.req_id (offer ch msg) pending

-- A message that is no request.
unfoldable pub handle_reply : Pending → Message → Pending
handle_reply pending msg = reply_at pending msg (Assoc.lookup key_eq msg.req_id pending)

-- What a caller makes of the answer.
unfoldable pub answer_of : Message → Result Message
answer_of resp =
    ite (key_eq resp.error []) (ok resp)
      (ite (key_eq resp.error (error_text not_found)) (err not_found) (err (message resp.error)))

-- The constant `maxRetries`.
abbrev pub max_retries : ℕ
max_retries = 1

-- `addr` is the text of the target's address. At attempt number `i` the socket may refuse the
-- message, and an answer may come before the timeout.
module _ (addr : Text) (write : ℕ → Option Error) (reply : ℕ → Option Message) where
  unfoldable pub attempts : ℕ → ℕ → Result Message
  attempts zero i = err (
      message (
        codes "request to "
        ++ addr
        ++ codes " timed out after "
        ++ decimal max_retries
        ++ codes " attempts"))
  attempts (suc left) i =
      let rest = attempts left (suc i) in
      elim (write i) [
        | some e ↦ err e
        | none ↦ elim (reply i) [ some resp ↦ answer_of resp | none ↦ rest ]
      ]

  -- `encoding` is the error of `json.Marshal`.
  unfoldable pub send_req : Bool → Option NetworkNode → Option Error → Result Message
  send_req false target encoding = err (message (codes "transport is not listening"))
  send_req true none encoding = err (message (codes "target node is nil"))
  send_req true (some target) (some e) = err e
  send_req true (some target) none = attempts max_retries 0

-- The results of `Ping` and `Store`, `FindNode` and `FindValue`.
abbrev pub error_of : Result Message → Option Error
error_of (ok resp) = none
error_of (err e) = some e

abbrev pub nodes_of : Result Message → Result (List NetworkNode)
nodes_of (ok resp) = ok resp.nodes
nodes_of (err e) = err e

abbrev pub value_of : Result Message → Result (Option ValueMeta × List NetworkNode)
value_of (ok resp) = ok (resp.value, resp.nodes)
value_of (err e) = if is_not_found e then ok (none, []) else err e
