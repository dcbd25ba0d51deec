-- ===== src/Signaling/Central/Answers.antt =====
-- transport/webrtc/signaling.go, `CentralSignaler`: which call gets an answer.
use webrtc_dht.Prelude.{
  ℕ, ◌<◌, ◌≡◌, refl, sym, ap, ◌∙◌, ◌≢◌, Option, none, some, List, [], ◌∷◌, ◌++◌, arith, length,
  get_or, Text, codes, length-append, get_or-set_self, if_pos, if_neg,
}
use webrtc_dht.Prelude.Assoc
use webrtc_dht.Key.{NodeId, key_eq}
use webrtc_dht.Key.Hex.{hex_encode}
use webrtc_dht.Types.{Result, ok, NetworkNode}
use webrtc_dht.Signaling.{SignalPayload, SignalMsg, node_id_from_hex}
use webrtc_dht.Signaling.Central.{
  CentralSignaler, Call, offer_kind, answer_kind, pair_key, begin_offer, waiting, end_offer, fill,
  answer_to, on_answer, on_offer, on_message, answer_of, answer_msg,
}

get_or-append : {A : Type 0} (xs : List A) (v d : A) → get_or (xs ++ v ∷ []) (length xs) d ≡ v
get_or-append [] v d = refl
get_or-append (x ∷ xs) v d = get_or-append xs v d

-- A call that has begun, and whose entry in the map names its own channel, which is still empty.
pub record IsWaiting (s : CentralSignaler) (c : Call) : Type 0 where
  pub entry : Assoc.lookup key_eq c.key s.pending ≡ some c.channel
  pub made : c.channel < length s.channels
  pub empty : waiting s c ≡ none

pub begin_offer-IsWaiting :
    (s : CentralSignaler) (target : NodeId) (payload : SignalPayload)
    → IsWaiting (begin_offer s target payload).0 (begin_offer s target payload).1
unfolding begin_offer waiting
begin_offer-IsWaiting s target payload = record {
  entry = Assoc.lookup-assign_self key_eq _ _ s.pending;
  made = omega (arith, length-append s.channels (none ∷ []));
  empty = get_or-append s.channels none none;
}

-- The answer for the pair of nodes of a call that waits reaches it.
pub on_answer-waiting :
    (s : CentralSignaler) (c : Call) (m : SignalMsg)
    → IsWaiting s c
    → pair_key m.caller_id m.callee_id ≡ c.key
    → waiting (on_answer s m) c ≡ some m.sdp
unfolding on_answer answer_to waiting
on_answer-waiting s c m h e =
    let there = ap (λ k. Assoc.lookup key_eq k s.pending) e ∙ h.entry in
    let empty : get_or s.channels c.channel none ≡ none = h.empty in
    rw (there, on_answer)
      (get_or-set_self s.channels c.channel _ none h.made
        ∙ ap (λ (o : Option Text). fill o m.sdp) empty)

on_answer-lost :
    (s : CentralSignaler) (m : SignalMsg)
    → Assoc.lookup key_eq (pair_key m.caller_id m.callee_id) s.pending ≡ none
    → on_answer s m ≡ s
unfolding on_answer answer_to
on_answer-lost s m e = rw (e, on_answer)

-- Two calls at once for the same two nodes: when the first returns, the entry of the second goes
-- with it, and an answer for the pair that comes then reaches no call.
pub end_offer-lost :
    (s : CentralSignaler) (target : NodeId) (payload again : SignalPayload) (m : SignalMsg)
    → again.caller_id ≡ payload.caller_id
    → m.caller_id ≡ hex_encode payload.caller_id
    → m.callee_id ≡ hex_encode target
    → let (s₁, first) = begin_offer s target payload in
      let (s₂, second) = begin_offer s₁ target again in
      IsWaiting s₂ second
      × (on_answer (end_offer s₂ first) m ≡ end_offer s₂ first)
      × (waiting (on_answer (end_offer s₂ first) m) second ≡ none)
unfolding begin_offer end_offer waiting
end_offer-lost s target payload again m same caller callee =
    let first = begin_offer s target payload in
    let second = begin_offer first.0 target again in
    let waits : IsWaiting second.0 second.1 = begin_offer-IsWaiting first.0 target again in
    let key : pair_key m.caller_id m.callee_id ≡ first.1.key = rw (caller, callee) refl in
    let gone : on_answer (end_offer second.0 first.1) m ≡ end_offer second.0 first.1 =
      on_answer-lost (end_offer second.0 first.1) m (
        ap (λ k. Assoc.lookup key_eq k (Assoc.remove key_eq first.1.key second.0.pending)) key
        ∙ Assoc.lookup-remove_self key_eq first.1.key second.0.pending) in
    (waits, gone, ap (λ (t : CentralSignaler). waiting t second.1) gone ∙ waits.empty)

-- What an offer becomes at the other node.
pub on_message-offer :
    {W : Type 0} (handler : W → SignalPayload → W × Result Text) (own : NetworkNode) (w w' : W)
    (s : CentralSignaler) (conn : ℕ) (m : SignalMsg) (answer : Text)
    → m.kind ≡ offer_kind
    → s.conn ≡ some conn
    → handler w (record { caller_id = node_id_from_hex m.caller_id; sdp = m.sdp }) ≡ (w', ok answer)
    → on_message handler own w s m ≡ (w', s, some (answer_msg own m answer))
unfolding on_message on_offer answer_of
on_message-offer handler own w w' s conn m answer is live answers =
    if_pos (key_eq m.kind offer_kind) is _ _ ∙ rw (answers, live) refl

answer-ne-offer : answer_kind ≢ offer_kind
unfolding codes
answer-ne-offer e = cc

pub on_message-answer :
    {W : Type 0} (handler : W → SignalPayload → W × Result Text) (own : NetworkNode) (w : W)
    (s : CentralSignaler) (m : SignalMsg)
    → m.kind ≡ answer_kind
    → on_message handler own w s m ≡ (w, on_answer s m, none)
unfolding on_message
on_message-answer handler own w s m is =
    if_neg (key_eq m.kind offer_kind) (λ e. answer-ne-offer (sym is ∙ e)) _ _
    ∙ if_pos (key_eq m.kind answer_kind) is _ _
