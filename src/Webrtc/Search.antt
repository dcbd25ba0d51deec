-- ===== src/Webrtc/Search.antt =====
-- transport/webrtc/webrtc.go as the transport of a node: dht/transport.go, `Transport`. A search of
-- dht/logic.go over it ends as over any other.
use webrtc_dht.Prelude.{
  ◌≡◌, refl, sym, ap, ◌∙◌, subst, ◌^◌, ◌<◌, ℕ, Bool, Option, none, some, List, [], All, if_pos,
  if_neg, Bytes,
}
use webrtc_dht.Key.{NodeId, key_eq}
use webrtc_dht.Types.{
  Error, not_found, error_text, is_not_found, Result, ok, err, ok-injective, NetworkNode, ValueMeta,
}
use webrtc_dht.Node.{Node}
use webrtc_dht.Node.Laws.{IsNode}
use webrtc_dht.Storage.Files.{Formats}
use webrtc_dht.Transport.{Transport}
use webrtc_dht.Routing.Invariant.{IsPeer}
use webrtc_dht.Lookup.{iterative_search, Done}
use webrtc_dht.Lookup.Rounds.{Answers, Whenever}
use webrtc_dht.Lookup.Answered.{err-ne-ok, nothing}
use webrtc_dht.Lookup.Outcome.{IsDone}
use webrtc_dht.Lookup.Termination.{iterative_search-IsDone}
use webrtc_dht.Webrtc.Control.{RpcMessage, FetchWake, rpc_result, rpc_nodes, rpc_value}
use webrtc_dht.Webrtc.Peers.{Pion, Peers}
use webrtc_dht.Webrtc.Calls.{sent_on, send_rpc, ping, store, find_node, find_value, fetch_blob}

-- A call that succeeds has an answer.
rpc_result-eq-ok :
    (target : NodeId) (failed : Option Error) (answer : Option RpcMessage) (m : RpcMessage)
    → rpc_result target failed answer ≡ ok m
    → answer ≡ some m
unfolding rpc_result
rpc_result-eq-ok target (some e) answer m h = absurd (err-ne-ok h)
rpc_result-eq-ok target none none m h = absurd (err-ne-ok h)
rpc_result-eq-ok target none (some resp) m h = elim (key_eq resp.error []) [
  | yes a ↦ ap some (ok-injective (sym (if_pos (key_eq resp.error []) a _ _) ∙ h))
  | no a ↦
      let bad = sym (if_neg (key_eq resp.error []) a _ _) ∙ h in
      elim (key_eq resp.error (error_text not_found)) [
        | yes b ↦
            absurd (err-ne-ok (sym (if_pos (key_eq resp.error (error_text not_found)) b _ _) ∙ bad))
        | no b ↦
            absurd (err-ne-ok (sym (if_neg (key_eq resp.error (error_text not_found)) b _ _) ∙ bad))
      ]
]

module _ (P : Pion) (own : NetworkNode)
    (exchange : P.World → ℕ → RpcMessage → P.World × Option Error × Option RpcMessage)
    (wait_blob : P.World → ℕ → P.World × Bool)
    (fetch : P.World → ℕ → RpcMessage → P.World × Option Error × FetchWake)
    (random : P.World → Bytes) (schedule : P.World → List NetworkNode → List NetworkNode)
    (context_error : P.World → Option Error) where
  -- The world has the map of peers beside it.
  abbrev pub as_transport : Transport
  as_transport = record {
    World = P.World × Peers;
    ping = λ w n. let (v, peers, r) = ping P own exchange (random w.0) w.0 w.1 n in ((v, peers), r);
    store = λ w n key value.
        let (v, peers, r) = store P own exchange (random w.0) w.0 w.1 n key value in
        ((v, peers), r);
    find_node = λ w n id.
        let (v, peers, r) = find_node P own exchange (random w.0) w.0 w.1 n id in ((v, peers), r);
    find_value = λ w n key.
        let (v, peers, r) = find_value P own exchange (random w.0) w.0 w.1 n key in ((v, peers), r);
    fetch_blob = λ w n ref.
        let (v, peers, r) = fetch_blob P own exchange wait_blob fetch (random w.0) w.0 w.1 n ref in
        ((v, peers), r);
    schedule = λ w ns. (w, schedule w.0 ns);
    context_error = λ w. context_error w.0;
  }

  module _ (V : ValueMeta → Type 0)
      (good : (w : P.World) (pc : ℕ) (msg m : RpcMessage)
        → (exchange w pc msg).2 ≡ some m
        → All IsPeer m.nodes × Whenever V m.value) where
    sent_on-good :
        (target : NetworkNode) (msg : RpcMessage) (x : P.World × Peers × Result ℕ) (m : RpcMessage)
        → (sent_on P own exchange target msg x).2 ≡ ok m
        → All IsPeer m.nodes × Whenever V m.value
    unfolding sent_on
    sent_on-good target msg (w, peers, err e) m h = absurd (err-ne-ok h)
    sent_on-good target msg (w, peers, ok pc) m h =
        good w pc msg m (rpc_result-eq-ok target.id (exchange w pc msg).1 (exchange w pc msg).2 m h)

    nodes_of-good :
        (r : Result RpcMessage) (ns : List NetworkNode)
        → ((m : RpcMessage) → r ≡ ok m → All IsPeer m.nodes × Whenever V m.value)
        → rpc_nodes r ≡ ok ns
        → All IsPeer ns
    nodes_of-good (ok m) ns g h = subst (All IsPeer) (ok-injective h) (g m refl).0
    nodes_of-good (err e) ns g h = absurd (err-ne-ok h)

    value_of-good :
        (r : Result RpcMessage) (v : Option ValueMeta) (ns : List NetworkNode)
        → ((m : RpcMessage) → r ≡ ok m → All IsPeer m.nodes × Whenever V m.value)
        → rpc_value r ≡ ok (v, ns)
        → All IsPeer ns × Whenever V v
    value_of-good (ok m) v ns g h =
        let same = ok-injective h in
        (
          subst (All IsPeer) (ap (λ p. p.1) same) (g m refl).0,
          subst (Whenever V) (ap (λ p. p.0) same) (g m refl).1,
        )
    value_of-good (err e) v ns g h = nothing V (is_not_found e) e v ns h

    pub as_transport-Answers : Answers as_transport IsPeer V
    unfolding find_node find_value send_rpc
    as_transport-Answers = record {
      nodes = λ w n id ns h. nodes_of-good _ ns (sent_on-good n _ _) h;
      others = λ w n key v ns h. (value_of-good _ v ns (sent_on-good n _ _) h).0;
      values = λ w n key v ns h. (value_of-good _ (some v) ns (sent_on-good n _ _) h).1;
    }

    -- A search over WebRTC from a correct node, with more than 2 ^ 160 of fuel, ends as a search
    -- does, whichever connections fail; if in the messages that come every contact has a key, and
    -- `V` holds of every value.
    pub iterative_search-as_transport :
        (F : Formats) (fuel : ℕ) (w : P.World × Peers) (node : Node) (target : NodeId) (b : Bool)
        → 2 ^ 160 < fuel
        → IsNode node
        → (d : Done F as_transport) × (iterative_search F as_transport fuel w node target b
            ≡ some d)
          × IsDone F as_transport IsPeer V (λ _ p. p) as_transport-Answers b target node.self d
    iterative_search-as_transport F fuel w node target b enough h =
        iterative_search-IsDone F as_transport V as_transport-Answers fuel w node target b enough h
