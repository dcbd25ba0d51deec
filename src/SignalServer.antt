-- ===== src/SignalServer.antt =====
-- cmd/signal_server/main.go: the server that passes offers and answers on. A connection is a
-- number. Each connection is served by a goroutine, whose variable `nodeID` is the name here.
pub mod Registry
pub mod Exchange
use webrtc_dht.Prelude.{
  ℕ, Bool, true, false, Option, none, some, List, [], ◌∷◌, ite, ℕ_discrete, Text, codes,
}
use webrtc_dht.Prelude.Assoc
use webrtc_dht.Key.{key_eq}
use webrtc_dht.Signaling.{SignalMsg}
use webrtc_dht.Signaling.Central.{register_kind, offer_kind, answer_kind}

-- The map `peers` from identifiers to connections, and the open connections with their names.
pub record Server : Type 0 where
  pub peers : List (Text × ℕ)
  pub conns : List (ℕ × Text)

unfoldable pub new_server : Server
new_server = record { peers = []; conns = [] }

-- A message that `doForward` is started with, and its target.
pub record Forward : Type 0 where
  pub target : Text
  pub msg : SignalMsg

-- A connection is upgraded: it has no name yet.
unfoldable pub accept : Server → ℕ → Server
accept s conn = record s { conns = Assoc.assign ℕ_discrete conn [] s.conns }

unfoldable pub register : Server → ℕ → Text → Server
register s conn id = record {
  peers = Assoc.assign key_eq id conn s.peers;
  conns = Assoc.assign ℕ_discrete conn id s.conns;
}

-- A pass of the loop of `ServeHTTP`: the new state, and the goroutine that it starts.
unfoldable pub on_message : Server → ℕ → SignalMsg → Server × Option Forward
on_message s conn msg =
    ite (key_eq msg.kind register_kind) (register s conn msg.id, none)
      (ite (key_eq msg.kind offer_kind) (s, some (record { target = msg.callee_id; msg = msg }))
        (ite (key_eq msg.kind answer_kind) (s, some (record { target = msg.caller_id; msg = msg }))
          (s, none)))

drop_peer : List (Text × ℕ) → Option Text → List (Text × ℕ)
drop_peer peers none = peers
drop_peer peers (some []) = peers
drop_peer peers (some (c ∷ cs)) = Assoc.remove key_eq (c ∷ cs) peers

-- The deferred function: the entry of the name goes, whatever connection it names.
unfoldable pub disconnect : Server → ℕ → Server
unfolding drop_peer
disconnect s conn = record {
  peers = drop_peer s.peers (Assoc.lookup ℕ_discrete conn s.conns);
  conns = Assoc.remove ℕ_discrete conn s.conns;
}

-- `doForward` when it gets to look at the map: the connection that is sent the message.
unfoldable pub do_forward : Server → Forward → Option (ℕ × SignalMsg)
do_forward s f = elim (Assoc.lookup key_eq f.target s.peers) [
  | none ↦ none
  | some conn ↦ some (conn, f.msg)
]
