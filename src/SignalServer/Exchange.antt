-- ===== src/SignalServer/Exchange.antt =====
-- cmd/signal_server/main.go with transport/webrtc/signaling.go: an offer and its answer, from one
-- node through the server to the other and back.
use webrtc_dht.Prelude.{
  ℕ, ◌≡◌, refl, sym, ap, ◌∙◌, ◌≢◌, Option, none, some, [], Text, codes, if_pos, if_neg,
}
use webrtc_dht.Prelude.Assoc
use webrtc_dht.Key.{IsKey, key_eq}
use webrtc_dht.Key.Hex.{hex_encode}
use webrtc_dht.Types.{Result, ok, NetworkNode}
use webrtc_dht.Signaling.{SignalPayload, SignalMsg}
use webrtc_dht.Signaling.Ids.{node_id_from_hex-hex_encode}
use webrtc_dht.Signaling.Central
use webrtc_dht.Signaling.Central.{
  CentralSignaler, register_kind, offer_kind, answer_kind, begin_offer, offer_msg, answer_msg,
  waiting,
}
use webrtc_dht.Signaling.Central.Answers.{
  begin_offer-IsWaiting, on_answer-waiting, on_message-offer, on_message-answer,
}
use webrtc_dht.SignalServer.{Server, Forward, on_message, do_forward}

forwarded : Server × Option Forward → Option (ℕ × SignalMsg)
forwarded (s, none) = none
forwarded (s, some f) = do_forward s f

-- What the server does with a message, if nothing comes in between: the connection that gets it.
unfoldable pub pass_on : Server → ℕ → SignalMsg → Option (ℕ × SignalMsg)
unfolding forwarded
pass_on s conn msg = forwarded (on_message s conn msg)

do_forward-to :
    (s : Server) (f : Forward) (conn : ℕ)
    → Assoc.lookup key_eq f.target s.peers ≡ some conn
    → do_forward s f ≡ some (conn, f.msg)
unfolding do_forward
do_forward-to s f conn e = rw (e, do_forward)

offer-ne : offer_kind ≢ register_kind
unfolding codes
offer-ne e = cc

answer-ne : (answer_kind ≢ register_kind) × (answer_kind ≢ offer_kind)
unfolding codes
answer-ne = ((λ e. cc), (λ e. cc))

pass_on-offer :
    (s : Server) (from to : ℕ) (m : SignalMsg)
    → m.kind ≡ offer_kind
    → Assoc.lookup key_eq m.callee_id s.peers ≡ some to
    → pass_on s from m ≡ some (to, m)
unfolding on_message pass_on forwarded
pass_on-offer s from to m is there =
    let step : on_message s from m ≡ (s, some (record { target = m.callee_id; msg = m })) =
      if_neg (key_eq m.kind register_kind) (λ e. offer-ne (sym is ∙ e)) _ _
      ∙ if_pos (key_eq m.kind offer_kind) is _ _ in
    ap forwarded step ∙ do_forward-to s (record { target = m.callee_id; msg = m }) to there

pass_on-answer :
    (s : Server) (from to : ℕ) (m : SignalMsg)
    → m.kind ≡ answer_kind
    → Assoc.lookup key_eq m.caller_id s.peers ≡ some to
    → pass_on s from m ≡ some (to, m)
unfolding on_message pass_on forwarded
pass_on-answer s from to m is there =
    let step : on_message s from m ≡ (s, some (record { target = m.caller_id; msg = m })) =
      if_neg (key_eq m.kind register_kind) (λ e. answer-ne.0 (sym is ∙ e)) _ _
      ∙ if_neg (key_eq m.kind offer_kind) (λ e. answer-ne.1 (sym is ∙ e)) _ _
      ∙ if_pos (key_eq m.kind answer_kind) is _ _ in
    ap forwarded step ∙ do_forward-to s (record { target = m.caller_id; msg = m }) to there

module _ {W : Type 0} (handler : W → SignalPayload → W × Result Text) (w w' : W) (s : Server)
    (caller callee : CentralSignaler) (caller_node callee_node : NetworkNode)
    (payload : SignalPayload) (answer : Text) where
  -- While both nodes are registered and connected and nothing comes between, an offer of a caller
  -- with a key reaches the handler of the node that it is for, with the identifier of the caller
  -- and the session as they were sent; and the handler's answer, if it gives one, reaches the
  -- waiting call of the caller.
  pub begin_offer-answer :
      (caller_conn callee_conn conn : ℕ)
      → IsKey payload.caller_id
      → Assoc.lookup key_eq (hex_encode payload.caller_id) s.peers ≡ some caller_conn
      → Assoc.lookup key_eq (hex_encode callee_node.id) s.peers ≡ some callee_conn
      → callee.conn ≡ some conn
      → handler w payload ≡ (w', ok answer)
      → let (caller', call) = begin_offer caller callee_node.id payload in
        let offer = offer_msg callee_node.id payload in
        let reply = answer_msg callee_node offer answer in
        (pass_on s caller_conn offer ≡ some (callee_conn, offer))
        × (Central.on_message handler callee_node w callee offer ≡ (w', callee, some reply))
        × (pass_on s callee_conn reply ≡ some (caller_conn, reply))
        × (waiting (Central.on_message handler caller_node w' caller' reply).1 call ≡ some answer)
  unfolding offer_msg answer_msg begin_offer
  begin_offer-answer caller_conn callee_conn conn is_key from to live answers =
      let offer = offer_msg callee_node.id payload in
      let reply = answer_msg callee_node offer answer in
      let begun = begin_offer caller callee_node.id payload in
      let back = (node_id_from_hex-hex_encode [] payload.caller_id is_key).1 in
      let heard =
        ap (λ i. handler w (record { caller_id = i; sdp = payload.sdp })) back ∙ answers in
      (
        pass_on-offer s caller_conn callee_conn offer refl to,
        on_message-offer handler callee_node w w' callee conn offer answer refl live heard,
        pass_on-answer s callee_conn caller_conn reply refl from,
        ap (λ (r : W × CentralSignaler × Option SignalMsg). waiting r.1 begun.1)
              (on_message-answer handler caller_node w' begun.0 reply refl)
            ∙ on_answer-waiting begun.0 begun.1 reply
                (begin_offer-IsWaiting caller callee_node.id payload) refl,
      )
