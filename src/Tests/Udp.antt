-- ===== src/Tests/Udp.antt =====
-- The theorems of calls as messages, applied.
use webrtc_dht.Prelude.{refl, ◌≡◌, none, some, [], ◌∷◌, arith, codes, Text, ◌<◌, ◌^◌, length, take}
use webrtc_dht.Prelude.Assoc
use webrtc_dht.Key.{key_eq}
use webrtc_dht.Storage
use webrtc_dht.Storage.Disk.{get_blob}
use webrtc_dht.Storage.Files.{read_file, path_eq, join}
use webrtc_dht.Node.{on_ping, on_store, on_find_node, on_find_value, on_fetch_blob}
use webrtc_dht.Udp.{rpc_ping, rpc_store, plain, error_of, nodes_of, value_of}
use webrtc_dht.Json.{wire_value, wired_nodes, wired_value}
use webrtc_dht.Udp.Calls.{
  or_nothing, called, call, store_message, find_node_message, find_value_message, dispatch_lem,
}
use webrtc_dht.Udp.Replies.{handle_replies, first_for, handle_replies-first_for}
use webrtc_dht.Udp.Blob.{held_blob, handle_blob_conn, fetch_blob}
use webrtc_dht.Udp.Blob.Transfer.{received, fetch_blob-handle_blob_conn}
use webrtc_dht.Tests.Codec.{formats}
use webrtc_dht.Tests.Data.{key, peer, inline_value, net}
use webrtc_dht.Tests.Node.{node, ref, blob_holder}

abbrev id : Text
id = codes "0a"

dispatch_lem_example :
    let (w₁, node₁, nodes) = on_find_node formats (net none) 0 node (some (peer 9)) (key 3) in
    let (w₂, node₂, found) = on_find_value formats (net none) 0 node (some (peer 9)) (key 4) in
    (called formats
        (net none)
        (peer 1)
        (λ a. a)
        (peer 9)
        0
        node
        id
        error_of
        (call formats (net none) (peer 1) (λ a. a) (peer 9) 0 node id (plain rpc_ping))
      ≡ on_ping formats (net none) 0 node (some (peer 9)))
    × (called formats
          (net none)
          (peer 1)
          (λ a. a)
          (peer 9)
          0
          node
          id
          error_of
          (call formats
            (net none)
            (peer 1)
            (λ a. a)
            (peer 9)
            0
            node
            id
            (store_message formats
              (net none)
              (peer 1)
              (λ a. a)
              (peer 9)
              0
              node
              id
              (key 4)
              inline_value))
        ≡ on_store formats (net none) 0 node (some (peer 9)) (key 4) (wire_value inline_value))
    × (called formats
          (net none)
          (peer 1)
          (λ a. a)
          (peer 9)
          0
          node
          id
          nodes_of
          (call formats
            (net none)
            (peer 1)
            (λ a. a)
            (peer 9)
            0
            node
            id
            (find_node_message formats (net none) (peer 1) (λ a. a) (peer 9) 0 node id (key 3)))
        ≡ (w₁, node₁, wired_nodes (λ a. a) nodes))
    × (called formats
          (net none)
          (peer 1)
          (λ a. a)
          (peer 9)
          0
          node
          id
          value_of
          (call formats
            (net none)
            (peer 1)
            (λ a. a)
            (peer 9)
            0
            node
            id
            (find_value_message formats (net none) (peer 1) (λ a. a) (peer 9) 0 node id (key 4)))
        ≡ (w₂, node₂, or_nothing (wired_value (λ a. a) found)))
dispatch_lem_example =
    dispatch_lem formats (net none) (peer 1) (λ a. a) (peer 9) 0 node id (key 3) (key 4)
      inline_value

handle_replies-first_for_example :
    Assoc.lookup key_eq id (
      handle_replies
        (Assoc.assign key_eq id none [])
        (plain rpc_ping ∷ record (plain rpc_store) { req_id = id } ∷ []))
    ≡ some (first_for id (plain rpc_ping ∷ record (plain rpc_store) { req_id = id } ∷ []))
handle_replies-first_for_example =
    handle_replies-first_for id [] (plain rpc_ping ∷ record (plain rpc_store) { req_id = id } ∷ [])

has_blob : held_blob formats (net none) (some blob_holder) ref ≡ 1 ∷ 2 ∷ 3 ∷ []
unfolding on_fetch_blob Storage.as_blob_store get_blob read_file Assoc.lookup path_eq join codes
has_blob = refl

small : length (held_blob formats (net none) (some blob_holder) ref) < 2 ^ 64
small = rw has_blob (omega arith)

fetch_blob-handle_blob_conn_example :
    fetch_blob
      (codes "a:1")
      none
      none
      (λ input. take 20 (handle_blob_conn formats (net none) (some blob_holder) input))
      ref
    ≡ received 20 (held_blob formats (net none) (some blob_holder) ref)
fetch_blob-handle_blob_conn_example =
    fetch_blob-handle_blob_conn formats (net none) (some blob_holder) ref (codes "a:1") 20 refl
      small
