-- ===== src/Tests/SignalServer.antt =====
-- The theorems of the signal server and of the signaler that uses it, applied.
use webrtc_dht.Prelude.{
  ℕ, ◌≡◌, refl, ◌≢◌, true, false, none, some, [], ◌∷◌, ℕ_discrete, Text, codes, arith,
}
use webrtc_dht.Prelude.Assoc
use webrtc_dht.Key.{key_eq}
use webrtc_dht.Key.Hex.{hex_encode}
use webrtc_dht.Types.{Result, ok}
use webrtc_dht.Signaling.{SignalPayload, SignalMsg}
use webrtc_dht.Signaling.Central
use webrtc_dht.Signaling.Central.{
  CentralSignaler, new_central_signaler, begin_offer, end_offer, on_answer, offer_msg, answer_msg,
  waiting, offer_kind, answer_kind,
}
use webrtc_dht.Signaling.Central.Answers.{IsWaiting, end_offer-lost}
use webrtc_dht.SignalServer.{Server, Forward, new_server, accept, register, disconnect, do_forward}
use webrtc_dht.SignalServer.Registry.{
  Reach, start, next, accepts, registers, do_forward-Reach, disconnect-lost,
}
use webrtc_dht.SignalServer.Exchange.{pass_on, begin_offer-answer}
use webrtc_dht.Tests.Data.{key, key-IsKey, peer}

abbrev payload : SignalPayload
payload = record { caller_id = key 9; sdp = codes "v=0" }

abbrev signaler : CentralSignaler
signaler = record {
  server_url = codes "http://s";
  conn = some 4;
  pending = [];
  channels = [];
  has_cancel = true;
  cancelled = false;
}

abbrev server : Server
server = record {
  peers = (hex_encode (key 9), 1) ∷ (hex_encode (key 2), 2) ∷ [];
  conns = (1, hex_encode (key 9)) ∷ (2, hex_encode (key 2)) ∷ [];
}

abbrev handler : ℕ → SignalPayload → ℕ × Result Text
handler w p = (w, ok (codes "answer"))

caller_conn : Assoc.lookup key_eq (hex_encode (key 9)) server.peers ≡ some 1
unfolding Assoc.lookup key_eq hex_encode
caller_conn = refl

callee_conn : Assoc.lookup key_eq (hex_encode (key 2)) server.peers ≡ some 2
unfolding Assoc.lookup key_eq hex_encode
callee_conn = refl

begin_offer-answer_example :
    let (caller', call) = begin_offer signaler (key 2) payload in
    let offer = offer_msg (key 2) payload in
    let reply = answer_msg (peer 2) offer (codes "answer") in
    (pass_on server 1 offer ≡ some (2, offer))
    × (Central.on_message handler (peer 2) 0 signaler offer ≡ (0, signaler, some reply))
    × (pass_on server 2 reply ≡ some (1, reply))
    × (waiting (Central.on_message handler (peer 9) 0 caller' reply).1 call ≡ some (codes "answer"))
begin_offer-answer_example =
    begin_offer-answer handler 0 0 server signaler signaler (peer 9) (peer 2) payload
      (codes "answer") 1 2 4 (key-IsKey 9 (omega arith)) caller_conn callee_conn refl refl

abbrev answer : SignalMsg
answer = record {
  kind = answer_kind;
  id = [];
  caller_id = hex_encode (key 9);
  callee_id = hex_encode (key 2);
  sdp = codes "answer";
}

end_offer-lost_example :
    let (s₁, first) = begin_offer signaler (key 2) payload in
    let (s₂, second) = begin_offer s₁ (key 2) payload in
    IsWaiting s₂ second
    × (on_answer (end_offer s₂ first) answer ≡ end_offer s₂ first)
    × (waiting (on_answer (end_offer s₂ first) answer) second ≡ none)
end_offer-lost_example = end_offer-lost signaler (key 2) payload payload answer refl refl refl

abbrev name : Text
name = codes "ab"

name-ne : name ≢ []
unfolding codes
name-ne e = cc

abbrev to_name : Forward
to_name = record { target = name; msg = answer }

abbrev named_server : Server
named_server = register (accept new_server 1) 1 name

named_server-Reach : Reach named_server
unfolding accept new_server Assoc.lookup Assoc.assign ℕ_discrete
named_server-Reach = next (next start (accepts 1 refl)) (registers 1 name name-ne refl)

sent : do_forward named_server to_name ≡ some (1, answer)
unfolding do_forward register accept new_server Assoc.lookup Assoc.assign key_eq codes
sent = refl

do_forward-Reach_example :
    (Assoc.lookup ℕ_discrete 1 named_server.conns ≡ some name) × (answer ≡ answer)
do_forward-Reach_example = do_forward-Reach to_name 1 answer named_server-Reach sent

apart : ◌≢◌ {A = ℕ} 1 2
apart e = omega arith

disconnect-lost_example :
    let s' = disconnect (register (register new_server 1 name) 2 name) 1 in
    (Assoc.lookup ℕ_discrete 2 s'.conns ≡ some name) × (do_forward s' to_name ≡ none)
disconnect-lost_example = disconnect-lost new_server 1 2 to_name apart name-ne
