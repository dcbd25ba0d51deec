-- ===== src/Webrtc/Calls.antt =====
-- transport/webrtc/webrtc.go: `sendRPC`, the calls that use it, and `FetchBlob`, from the choice of
-- a connection on. What comes back on a connection is a function of what is sent.
use webrtc_dht.Prelude.{
  ℕ, ◌≡◌, ◌∙◌, Bool, true, false, Option, List, arith, length, Text, Bytes, codes,
}
use webrtc_dht.Key.{Key, NodeId}
use webrtc_dht.Key.Hex.{hex_encode, length-hex_encode}
use webrtc_dht.Types.{Error, message, Result, ok, err, NetworkNode, ValueMeta}
use webrtc_dht.Udp.{rpc_ping}
use webrtc_dht.Webrtc.Control.{
  RpcMessage, rpc_message, rpc_request, rpc_result, store_rpc, find_node_rpc, find_value_rpc,
  rpc_error, rpc_nodes, rpc_value, fetch_msg, FetchWake, fetch_result,
}
use webrtc_dht.Webrtc.Peers.{Pion, Peers, get_peer}

-- The identifier of a request, from 16 random bytes.
unfoldable pub gen_req_id : Bytes → Text
gen_req_id random = hex_encode random

module _ (P : Pion) (own : NetworkNode)
    (exchange : P.World → ℕ → RpcMessage → P.World × Option Error × Option RpcMessage) where
  open P use {World}

  unfoldable pub sent_on :
      NetworkNode → RpcMessage → World × Peers × Result ℕ → World × Peers × Result RpcMessage
  sent_on target msg (w, peers, err e) = (w, peers, err e)
  sent_on target msg (w, peers, ok pc) =
      let (w', failed, answer) = exchange w pc msg in
      (w', peers, rpc_result target.id failed answer)

  -- `random` are the bytes of the identifier.
  unfoldable pub send_rpc :
      Bytes → World → Peers → NetworkNode → RpcMessage → World × Peers × Result RpcMessage
  unfolding sent_on
  send_rpc random w peers target msg =
      sent_on target (rpc_request own (gen_req_id random) msg) (get_peer P own target w peers)

  unfoldable pub ping : Bytes → World → Peers → NetworkNode → World × Peers × Option Error
  ping random w peers target =
      let (w', peers', r) = send_rpc random w peers target (rpc_message rpc_ping) in
      (w', peers', rpc_error r)

  unfoldable pub store :
      Bytes → World → Peers → NetworkNode → Key → ValueMeta → World × Peers × Option Error
  store random w peers target key value =
      let (w', peers', r) = send_rpc random w peers target (store_rpc key value) in
      (w', peers', rpc_error r)

  unfoldable pub find_node :
      Bytes → World → Peers → NetworkNode → NodeId → World × Peers × Result (List NetworkNode)
  find_node random w peers target id =
      let (w', peers', r) = send_rpc random w peers target (find_node_rpc id) in
      (w', peers', rpc_nodes r)

  unfoldable pub find_value :
      Bytes
      → World
      → Peers
      → NetworkNode
      → Key
      → World × Peers × Result (Option ValueMeta × List NetworkNode)
  find_value random w peers target key =
      let (w', peers', r) = send_rpc random w peers target (find_value_rpc key) in
      (w', peers', rpc_value r)

  -- `wait_blob` waits for the blob channel, and `fetch` sends the request and waits.
  module _ (wait_blob : World → ℕ → World × Bool)
      (fetch : World → ℕ → RpcMessage → World × Option Error × FetchWake) where
    blob_asked : NetworkNode → RpcMessage → Peers → ℕ → World × Bool → World × Peers × Result Bytes
    blob_asked target msg peers pc (w, false) =
        (w, peers, err (message (codes "blob channel not ready")))
    blob_asked target msg peers pc (w, true) =
        let (w', failed, wake) = fetch w pc msg in (w', peers, fetch_result target.id failed wake)

    blob_peer : NetworkNode → RpcMessage → World × Peers × Result ℕ → World × Peers × Result Bytes
    unfolding blob_asked
    blob_peer target msg (w, peers, err e) = (w, peers, err e)
    blob_peer target msg (w, peers, ok pc) = blob_asked target msg peers pc (wait_blob w pc)

    unfoldable pub fetch_blob :
        Bytes → World → Peers → NetworkNode → Text → World × Peers × Result Bytes
    unfolding blob_peer
    fetch_blob random w peers target ref =
        blob_peer target (fetch_msg own (gen_req_id random) ref) (get_peer P own target w peers)

-- The identifier of a request fits the head of a frame exactly.
pub length-gen_req_id : (random : Bytes) → length random ≡ 16 → length (gen_req_id random) ≡ 32
unfolding gen_req_id
length-gen_req_id random h = length-hex_encode random ∙ omega (arith, h)
