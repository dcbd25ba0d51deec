-- ===== src/Signaling/Central.antt =====
-- transport/webrtc/signaling.go, `CentralSignaler`: offers and answers by way of a server.
-- A call of `SendOffer` is three steps, since it waits without a lock: `begin_offer` up to the
-- wait, the wait itself, and `end_offer`. The channel that it makes stands in a store, so that two
-- calls for the same pair of nodes are told apart.
pub mod Answers
use webrtc_dht.Prelude.{
  ℕ, Bool, true, false, Option, none, some, List, [], ◌∷◌, ◌++◌, ite, if◌then◌else◌, length, get_or,
  set, take, drop, Text, codes,
}
use webrtc_dht.Prelude.Assoc
use webrtc_dht.Key.{NodeId, key_eq}
use webrtc_dht.Key.Hex.{hex_encode}
use webrtc_dht.Types.{Error, message, wrapped, Result, ok, err, NetworkNode}
use webrtc_dht.Signaling.{SignalPayload, SignalMsg, node_id_from_hex}

-- `conn` is nil or a connection; `channels` are all the channels that were made, of capacity one.
pub record CentralSignaler : Type 0 where
  pub server_url : Text
  pub conn : Option ℕ
  pub pending : List (Text × ℕ)
  pub channels : List (Option Text)
  pub has_cancel : Bool
  pub cancelled : Bool

unfoldable pub new_central_signaler : Text → CentralSignaler
new_central_signaler server_url = record {
  server_url = server_url;
  conn = none;
  pending = [];
  channels = [];
  has_cancel = false;
  cancelled = false;
}

-- A text that is shorter than a prefix does not begin with it.
unfoldable pub central_ws_url : Text → Text
central_ws_url u =
    ite (key_eq (take 7 u) (codes "http://")) (codes "ws://" ++ drop 7 u)
      (ite (key_eq (take 8 u) (codes "https://")) (codes "wss://" ++ drop 8 u) u)

abbrev pub register_kind : Text
register_kind = codes "register"

abbrev pub offer_kind : Text
offer_kind = codes "offer"

abbrev pub answer_kind : Text
answer_kind = codes "answer"

unfoldable pub register_msg : NodeId → SignalMsg
register_msg id = record {
  kind = register_kind;
  id = hex_encode id;
  caller_id = [];
  callee_id = [];
  sdp = [];
}

registered : CentralSignaler → ℕ → Option Error → CentralSignaler × Option Error
registered s conn (some e) = (s, some (wrapped (codes "CentralSignaler: register: ") e))
registered s conn none = (record s { conn = some conn; has_cancel = true; cancelled = false }, none)

-- `dial` gets the connection for a URL, and `write` sends a message on it.
unfoldable pub listen_offers :
    (Text → Result ℕ)
    → (ℕ → SignalMsg → Option Error)
    → CentralSignaler
    → NetworkNode
    → CentralSignaler × Option Error
unfolding registered
listen_offers dial write s own = elim (dial (central_ws_url s.server_url ++ codes "/signal")) [
  | err e ↦ (s, some (wrapped (codes "CentralSignaler: dial " ++ s.server_url ++ codes ": ") e))
  | ok conn ↦ registered s conn (write conn (register_msg own.id))
]

abbrev pub pair_key : Text → Text → Text
pair_key caller callee = caller ++ b'/' ∷ callee

-- The local variables of a call of `SendOffer`.
pub record Call : Type 0 where
  pub key : Text
  pub channel : ℕ

unfoldable pub begin_offer : CentralSignaler → NodeId → SignalPayload → CentralSignaler × Call
begin_offer s target payload =
    let key = pair_key (hex_encode payload.caller_id) (hex_encode target) in
    let channel = length s.channels in
    (
      record s {
        pending = Assoc.assign key_eq key channel s.pending;
        channels = s.channels ++ none ∷ [];
      },
      record { key = key; channel = channel },
    )

unfoldable pub offer_msg : NodeId → SignalPayload → SignalMsg
offer_msg target payload = record {
  kind = offer_kind;
  id = [];
  caller_id = hex_encode payload.caller_id;
  callee_id = hex_encode target;
  sdp = payload.sdp;
}

-- The offer goes out, if there is a connection and it takes it.
unfoldable pub write_offer :
    (ℕ → SignalMsg → Option Error) → CentralSignaler → NodeId → SignalPayload → Option Error
write_offer write s target payload = elim s.conn [
  | none ↦ some (message (codes "CentralSignaler: not connected"))
  | some conn ↦ elim (write conn (offer_msg target payload)) [
    | some e ↦ some (wrapped (codes "CentralSignaler: send offer: ") e)
    | none ↦ none
  ]
]

-- What is in the channel of a call.
unfoldable pub waiting : CentralSignaler → Call → Option Text
waiting s c = get_or s.channels c.channel none

-- Why a call goes on: with what it received, when its context is done, or at the timeout.
pub data Wake : Type 0 where
  answered : Text → Wake
  context_done : Error → Wake
  expired : Wake

unfoldable pub woken : NodeId → Wake → Result Text
woken target (answered sdp) = ok sdp
woken target (context_done e) = err e
woken target expired =
    err (message (codes "CentralSignaler: timeout waiting for answer from " ++ hex_encode target))

-- The deferred function: the entry of the key goes, whatever channel it names.
unfoldable pub end_offer : CentralSignaler → Call → CentralSignaler
end_offer s c = record s { pending = Assoc.remove key_eq c.key s.pending }

-- A send that a full channel turns away is dropped.
abbrev pub fill : Option Text → Text → Option Text
fill none sdp = some sdp
fill (some first) sdp = some first

answer_to : CentralSignaler → Text → Option ℕ → CentralSignaler
answer_to s sdp none = s
answer_to s sdp (some i) = record s {
  channels = set s.channels i (fill (get_or s.channels i none) sdp);
}

unfoldable pub on_answer : CentralSignaler → SignalMsg → CentralSignaler
unfolding answer_to
on_answer s msg =
    answer_to s msg.sdp (Assoc.lookup key_eq (pair_key msg.caller_id msg.callee_id) s.pending)

unfoldable pub answer_msg : NetworkNode → SignalMsg → Text → SignalMsg
answer_msg own m sdp = record {
  kind = answer_kind;
  id = [];
  caller_id = m.caller_id;
  callee_id = hex_encode own.id;
  sdp = sdp;
}

module _ {W : Type 0} (handler : W → SignalPayload → W × Result Text) (own : NetworkNode) where
  answer_of : Option ℕ → SignalMsg → Result Text → Option SignalMsg
  answer_of conn m (err e) = none
  answer_of none m (ok sdp) = none
  answer_of (some conn) m (ok sdp) = some (answer_msg own m sdp)

  -- An offer: the handler's answer is sent, if there is one and still a connection.
  unfoldable pub on_offer : W → CentralSignaler → SignalMsg → W × Option SignalMsg
  unfolding answer_of
  on_offer w s m =
      let payload : SignalPayload = record {
        caller_id = node_id_from_hex m.caller_id;
        sdp = m.sdp;
      } in
      let (w', answer) = handler w payload in (w', answer_of s.conn m answer)

  unfoldable pub on_message :
      W → CentralSignaler → SignalMsg → W × CentralSignaler × Option SignalMsg
  on_message w s m =
      let (w', reply) = on_offer w s m in
      ite (key_eq m.kind offer_kind) (w', s, reply)
        (ite (key_eq m.kind answer_kind) (w, on_answer s m, none) (w, s, none))

  -- The messages that `readLoop` reads, until it sees that it is cancelled, and what it sends.
  unfoldable pub read_loop :
      W → CentralSignaler → List SignalMsg → W × CentralSignaler × List SignalMsg
  read_loop w s [] = (w, s, [])
  read_loop w s (m ∷ ms) =
      let (w₁, s₁, reply) = on_message w s m in
      let (w₂, s₂, replies) = read_loop w₁ s₁ ms in
      if s.cancelled
      then (w, s, [])
      else (w₂, s₂, elim reply [ none ↦ replies | some r ↦ r ∷ replies ])

-- `Close`, where `closing` is what the connection's `Close` returns.
unfoldable pub close : CentralSignaler → Option Error → CentralSignaler × Option Error
close s closing = elim s.conn [
  | none ↦ (record s { cancelled = s.has_cancel }, none)
  | some conn ↦ (record s { cancelled = s.has_cancel; conn = none }, closing)
]
