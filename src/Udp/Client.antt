-- ===== src/Udp/Client.antt =====
-- transport/udp/udp.go: the calls of a transport that listens, on a world, and the transport as that of
-- a node: dht/transport.go, `Transport`. For a message to a contact, `exchange` gives at each attempt
-- the error of writing to the socket and the reply that comes in time, if there are any.
pub mod Search
use webrtc_dht.Prelude.{ℕ, true, Option, none, some, List, Text, Bytes}
use webrtc_dht.Key.{Key, NodeId}
use webrtc_dht.Key.Hex.{hex_encode}
use webrtc_dht.Types.{Error, Result, err, NetworkNode, ValueMeta}
use webrtc_dht.Transport.{Transport}
use webrtc_dht.Udp.{
  Message, rpc_ping, rpc_store, rpc_find_node, rpc_find_value, plain, request, send_req, error_of,
  nodes_of, value_of,
}

-- `generateReqID`, from the bytes that are read at random.
unfoldable pub generate_req_id : Bytes → Text
unfolding hex_encode
generate_req_id random = hex_encode random

module _ {W : Type 0} (own : NetworkNode) (show_addr : NetworkNode → Text) (random : W → Bytes)
    (encoding : Message → Option Error)
    (exchange : W → NetworkNode → Message → W × (ℕ → Option Error) × (ℕ → Option Message)) where
  -- A message that cannot be encoded is not sent.
  exchanged : W → NetworkNode → Message → Option Error → W × Result Message
  unfolding send_req
  exchanged w target sent (some e) = (w, err e)
  exchanged w target sent none =
      let (w', write, reply) = exchange w target sent in
      (w', send_req (show_addr target) write reply true (some target) none)

  unfoldable pub requested : W → NetworkNode → Message → W × Result Message
  unfolding generate_req_id exchanged
  requested w target msg =
      let sent = request own (generate_req_id (random w)) msg in
      exchanged w target sent (encoding sent)

  unfoldable pub ping_at : W → NetworkNode → W × Option Error
  unfolding requested
  ping_at w target = let (w', r) = requested w target (plain rpc_ping) in (w', error_of r)

  unfoldable pub store_at : W → NetworkNode → Key → ValueMeta → W × Option Error
  unfolding requested
  store_at w target key value =
      let msg = record (plain rpc_store) { key = key; payload = some value } in
      let (w', r) = requested w target msg in (w', error_of r)

  unfoldable pub find_node_at : W → NetworkNode → NodeId → W × Result (List NetworkNode)
  unfolding requested
  find_node_at w target id =
      let (w', r) = requested w target (record (plain rpc_find_node) { target_id = id }) in
      (w', nodes_of r)

  unfoldable pub find_value_at :
      W → NetworkNode → Key → W × Result (Option ValueMeta × List NetworkNode)
  unfolding requested
  find_value_at w target key =
      let (w', r) = requested w target (record (plain rpc_find_value) { key = key }) in
      (w', value_of r)

  -- `fetch` is `FetchBlob`, which uses connections of its own.
  abbrev pub udp_transport :
      (W → NetworkNode → Text → W × Result Bytes)
      → (W → List NetworkNode → W × List NetworkNode)
      → (W → Option Error)
      → Transport
  udp_transport fetch schedule context_error = record {
    World = W;
    ping = ping_at;
    store = store_at;
    find_node = find_node_at;
    find_value = find_value_at;
    fetch_blob = fetch;
    schedule = schedule;
    context_error = context_error;
  }
