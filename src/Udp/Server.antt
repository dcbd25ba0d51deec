-- ===== src/Udp/Server.antt =====
-- transport/udp/udp.go: `Listen`, what the loop that it starts does with a datagram, `handleMessage`
-- and `Close`. Sockets are numbers; what opens them, STUN and the JSON of a message are functions.
-- Each message has a goroutine, of which `handle_message` is one whole run; how the runs of several
-- are interleaved is not modelled here.
pub mod Datagrams
use webrtc_dht.Prelude.{
  ℕ, Bool, true, false, Option, none, some, List, [], ◌∷◌, ite, if◌then◌else◌, Text, Bytes, codes,
  ℤ,
}
use webrtc_dht.Key.{key_eq}
use webrtc_dht.Types.{Error, message, wrapped, Result, ok, err, NetworkNode}
use webrtc_dht.Node.{Node}
use webrtc_dht.Storage.Files.{Formats}
use webrtc_dht.Transport.{Transport}
use webrtc_dht.Udp.{Message, Pending, handle_request, handle_reply}

-- `conn` and `tcp_ln` are nil or a socket, `handler` nil or the node; the requests that wait are
-- passed along beside it.
pub record UdpTransport : Type 0 where
  pub local_node : Option NetworkNode
  pub conn : Option ℕ
  pub tcp_ln : Option ℕ
  pub handler : Option Node
  pub stun_server : Text

unfoldable pub new_transport : NetworkNode → UdpTransport
new_transport own = record {
  local_node = some own;
  conn = none;
  tcp_ln = none;
  handler = none;
  stun_server = [];
}

unfoldable pub set_stun_server : UdpTransport → Text → UdpTransport
set_stun_server t server = record t { stun_server = server }

-- The public address and port replace the local ones; if they are not found there is a warning.
public_node : NetworkNode → Result (Bytes × ℤ) → NetworkNode
public_node own (err e) = own
public_node own (ok (address, port)) = record own { address = address; port = port }

module _ (open_udp open_tcp : Bytes → ℤ → Result ℕ) (resolve : Text → Result (Bytes × ℤ)) where
  with_tcp : UdpTransport → NetworkNode → Result ℕ → UdpTransport × Option Error
  unfolding public_node
  with_tcp t own (err e) = (t, some (wrapped (codes "blob tcp listener: ") e))
  with_tcp t own (ok ln) = (
    record t {
      tcp_ln = some ln;
      local_node =
          some (ite (key_eq t.stun_server []) own (public_node own (resolve t.stun_server)));
    },
    none,
  )

  with_udp : UdpTransport → NetworkNode → Result ℕ → UdpTransport × Option Error
  unfolding with_tcp
  with_udp t own (err e) = (t, some e)
  with_udp t own (ok conn) =
      with_tcp (record t { conn = some conn }) own (open_tcp own.address own.port)

  listen_at : UdpTransport → Node → Option NetworkNode → UdpTransport × Option Error
  unfolding with_udp
  listen_at t node none = (t, some (message (codes "local node is nil")))
  listen_at t node (some own) =
      with_udp (record t { handler = some node }) own (open_udp own.address own.port)

  -- Where it returns no error, both loops have been started.
  unfoldable pub listen : UdpTransport → Option Node → UdpTransport × Option Error
  unfolding listen_at
  listen t none = (t, some (message (codes "rpc handler is nil")))
  listen t (some node) = listen_at t node t.local_node

-- `Close`, where `closing` is what the `Close` of a socket returns.
unfoldable pub close : (ℕ → Option Error) → UdpTransport → Option Error
close closing t = elim t.conn [ none ↦ none | some conn ↦ closing conn ]

module _ (F : Formats) (T : Transport) (own : NetworkNode) where
  open T use {World}

  -- The answer is sent to where the message came from; `encode` writes it in JSON.
  unfoldable pub handle_message :
      (Message → Bytes)
      → World
      → Option Node
      → Pending
      → Message
      → World × Option Node × Pending × Option Bytes
  handle_message encode w handler pending msg =
      let (w', handler', resp) = handle_request F T own w handler msg in
      if msg.is_req
      then (w', handler', pending, some (encode resp))
      else (w, handler, handle_reply pending msg, none)

  module _ (is_stun : Bytes → Bool) (encode : Message → Bytes)
      (decode : Bytes → Result Message) where
    message_read :
        World
        → Option Node
        → Pending
        → Result Message
        → World × Option Node × Pending × Option Bytes
    unfolding handle_message
    message_read w handler pending (err e) = (w, handler, pending, none)
    message_read w handler pending (ok msg) = handle_message encode w handler pending msg

    -- A datagram that comes: messages of STUN and what is no message are passed over.
    unfoldable pub on_datagram :
        World → Option Node → Pending → Bytes → World × Option Node × Pending × Option Bytes
    unfolding message_read
    on_datagram w handler pending datagram =
        let next = message_read w handler pending (decode datagram) in
        if is_stun datagram then (w, handler, pending, none) else next
