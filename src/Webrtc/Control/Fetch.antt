-- ===== src/Webrtc/Control/Fetch.antt =====
-- transport/webrtc/webrtc.go: a request for a blob, from `FetchBlob` of one node to `onControlMsg`
-- of the other and back.
use webrtc_dht.Prelude.{
  ℕ, ◌+◌, ◌≡◌, refl, ap, ◌∙◌, ◌≢◌, true, Option, none, some, [], ◌∷◌, if_pos, if_neg, arith, length,
  get_or, Text, Bytes, codes,
}
use webrtc_dht.Prelude.Assoc
use webrtc_dht.Key.{key_eq}
use webrtc_dht.Types.{Result, ok, err, error_text, message, NetworkNode}
use webrtc_dht.Node.{Node, on_fetch_blob}
use webrtc_dht.Storage.Files.{Formats}
use webrtc_dht.Transport.{Transport}
use webrtc_dht.Udp.{rpc_ping, rpc_store, rpc_find_node, rpc_find_value}
use webrtc_dht.Webrtc.{BlobPending, send_blob_chunked, send_from}
use webrtc_dht.Webrtc.Frames.{deliver, send_blob_chunked-on_blob_msg}
use webrtc_dht.Webrtc.Control.{
  RpcMessage, PeerConn, rpc_fetch_blob, rpc_response, on_rpc_reply, rpc_reply_at, Reply, control,
  blob, blob_reply, dispatch_rpc, on_rpc_request, on_control_msg, send_reply, blob_sent, fetch_msg,
  begin_fetch, fetch_result, failed,
}

fetch_blob-ne :
    (rpc_fetch_blob ≢ rpc_ping)
    × (rpc_fetch_blob ≢ rpc_store)
    × (rpc_fetch_blob ≢ rpc_find_node)
    × (rpc_fetch_blob ≢ rpc_find_value)
unfolding codes
fetch_blob-ne = (
  (λ e. cc),
  (λ e. cc),
  (λ e. let c : ◌≡◌ {A = ℕ} 69 73 = ap (λ t. get_or t 1 0) e in omega arith),
  (λ e. let c : ◌≡◌ {A = ℕ} 69 73 = ap (λ t. get_or t 1 0) e in omega arith),
)

module _ (F : Formats) (T : Transport) (own other : NetworkNode) (w : T.World) (node : Node)
    (caller callee : PeerConn) (req_id ref : Text) where
  -- The answer to the request at the other node, with its text of an error; and the state of the
  -- caller that waits.
  abbrev pub fetched : T.World × Option Node × PeerConn × Reply
  fetched = on_control_msg F T other w (some node) callee (ok (fetch_msg own req_id ref))

  abbrev pub resp : Text → RpcMessage
  resp text = record (rpc_response other (fetch_msg own req_id ref)) { error = text }

  abbrev pub begun : PeerConn
  begun = begin_fetch caller req_id

  fetched_lem :
      (r : Result Bytes)
      → on_fetch_blob F T node (some own) ref ≡ r
      → fetched ≡ (w, some node, callee, blob_reply (resp []) callee.blob_ready r)
  unfolding on_control_msg on_rpc_request dispatch_rpc fetch_msg
  fetched_lem r e =
      let (a, b, c, d) = fetch_blob-ne in
      let step =
        if_neg (key_eq rpc_fetch_blob rpc_ping) a _ _
        ∙ if_neg (key_eq rpc_fetch_blob rpc_store) b _ _
        ∙ if_neg (key_eq rpc_fetch_blob rpc_find_node) c _ _
        ∙ if_neg (key_eq rpc_fetch_blob rpc_find_value) d _ _
        ∙ if_pos (key_eq rpc_fetch_blob rpc_fetch_blob) refl _ _ in
      ap (λ (t : T.World × Node × Reply). (t.0, some t.1, callee, t.2)) step
      ∙ ap (λ r. (w, some node, callee, blob_reply (resp []) callee.blob_ready r)) e

  -- What comes of the request, by what the handler returns: an error is answered with its text,
  -- which is what the caller reports; nothing is sent for an empty blob, and the caller waits on;
  -- any other blob, sent in frames, is then in the channel of the caller.
  unfoldable pub IsFetched : Result Bytes → Type 0
  IsFetched (err e) =
      (fetched ≡ (w, some node, callee, control (resp (error_text e))))
      × (Assoc.lookup key_eq req_id (on_rpc_reply begun (resp (error_text e))).rpc_pending
          ≡ some (some (resp (error_text e))))
      × (fetch_result other.id none (failed (resp (error_text e))) ≡ err (message (error_text e)))
  IsFetched (ok []) =
      (fetched ≡ (w, some node, callee, blob (resp []) []))
      × (send_reply deliver 1 begun.blob_pending (blob (resp []) [])
          ≡ some (begun.blob_pending, none))
  IsFetched (ok (b ∷ bs)) =
      (fetched ≡ (w, some node, callee, blob (resp []) (b ∷ bs)))
      × (pending : BlobPending) × (send_reply deliver (length (b ∷ bs) + 1) begun.blob_pending
            (blob (resp []) (b ∷ bs))
          ≡ some (pending, none))
      × (Assoc.lookup key_eq req_id pending ≡ some (record { buf = []; ch = some (b ∷ bs) }))

  on_rpc_reply-waiting :
      (m : RpcMessage)
      → m.req_id ≡ req_id
      → Assoc.lookup key_eq req_id (on_rpc_reply begun m).rpc_pending ≡ some (some m)
  unfolding on_rpc_reply rpc_reply_at begin_fetch
  on_rpc_reply-waiting m e =
      let pending = Assoc.assign key_eq req_id none caller.rpc_pending in
      let there =
        ap (λ i. Assoc.lookup key_eq i pending) e
        ∙ Assoc.lookup-assign_self key_eq req_id none caller.rpc_pending in
      ap (λ c. Assoc.lookup key_eq req_id (rpc_reply_at pending m c)) there
      ∙ ap (λ i. Assoc.lookup key_eq req_id (Assoc.assign key_eq i (some m) pending)) e
      ∙ Assoc.lookup-assign_self key_eq req_id (some m) pending

  module _ (size : length req_id ≡ 32) (ready : callee.blob_ready ≡ true) where
    IsFetched-cases : (r : Result Bytes) → on_fetch_blob F T node (some own) ref ≡ r → IsFetched r
    unfolding IsFetched blob_reply send_reply blob_sent begin_fetch fetch_result fetch_msg
        send_blob_chunked send_from
    IsFetched-cases (err e) is =
        (fetched_lem _ is, on_rpc_reply-waiting (resp (error_text e)) refl, refl)
    IsFetched-cases (ok []) is = (fetched_lem _ is ∙ rw ready refl, refl)
    IsFetched-cases (ok (b ∷ bs)) is =
        let (pending, sent, there) =
          send_blob_chunked-on_blob_msg req_id (b ∷ bs) size (length (b ∷ bs) + 1)
            begun.blob_pending (omega arith) (λ e. cc)
            (Assoc.lookup-assign_self key_eq req_id (record { buf = []; ch = none })
              caller.blob_pending) in
        (fetched_lem _ is ∙ rw ready refl, pending, ap (blob_sent deliver (resp [])) sent, there.0)

    -- A request for a blob over WebRTC, under an identifier of 32 bytes to a node whose blob channel
    -- is ready, changes nothing there, and ends by what its handler returns: an error is answered
    -- with its text, and the caller reports an error with that text; a blob that is not empty is
    -- sent in frames that arrive whole; for an empty blob nothing is sent, and the caller waits on.
    pub fetch_msg-IsFetched : IsFetched (on_fetch_blob F T node (some own) ref)
    fetch_msg-IsFetched = IsFetched-cases (on_fetch_blob F T node (some own) ref) refl
