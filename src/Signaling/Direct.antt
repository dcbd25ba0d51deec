-- ===== src/Signaling/Direct.antt =====
-- transport/webrtc/signaling.go, `DirectSignaler`: an offer by HTTP to the node itself. The client
-- and the server of net/http are functions that the operations take.
pub mod Offers
use webrtc_dht.Prelude.{
  ℕ, Bool, true, false, Option, none, some, List, [], ◌∷◌, ◌++◌, ite, Text, Bytes, codes, ◌==◌,
  if◌then◌else◌, ℤ, decimal, decimal_int,
}
use webrtc_dht.Prelude.Assoc
use webrtc_dht.Key.{NodeId, key_eq}
use webrtc_dht.Key.Hex.{hex_encode}
use webrtc_dht.Types.{Error, message, wrapped, error_text, Result, ok, err, NetworkNode}
use webrtc_dht.Signaling.{SignalPayload}

-- The server is made by `ListenOffers`.
pub record DirectSignaler : Type 0 where
  pub port : ℤ
  pub has_server : Bool

unfoldable pub new_direct_signaler : ℤ → DirectSignaler
new_direct_signaler port = record { port = port; has_server = false }

abbrev pub sig_port_name : Text
sig_port_name = codes "sig_port"

abbrev pub entries : Option (List (Text × Text)) → List (Text × Text)
entries none = []
entries (some m) = m

-- The local contact gets its port for signals, before anything can fail.
unfoldable pub listen_offers :
    DirectSignaler → NetworkNode → DirectSignaler × NetworkNode × Option Error
listen_offers s own = (
  record s { has_server = true },
  record own {
    meta = some (Assoc.assign key_eq sig_port_name (decimal_int s.port) (entries own.meta));
  },
  none,
)

-- A response of HTTP.
pub record Response : Type 0 where
  pub status : ℕ
  pub body : Bytes

answer_response : Result Text → Response
answer_response (err e) = record { status = 500; body = error_text e ++ 10 ∷ [] }
answer_response (ok answer) = record { status = 200; body = answer }

handle_payload :
    {W : Type 0} → (W → SignalPayload → W × Result Text) → W → Result SignalPayload → W × Response
handle_payload handler w (err e) = (w, record { status = 400; body = error_text e ++ 10 ∷ [] })
handle_payload handler w (ok p) = let (w', answer) = handler w p in (w', answer_response answer)

-- The handler of `/offer`; `decode` reads the JSON of a body.
unfoldable pub handle_offer :
    {W : Type 0}
    → (Bytes → Result SignalPayload)
    → (W → SignalPayload → W × Result Text)
    → W
    → Bytes
    → W × Response
unfolding handle_payload answer_response
handle_offer decode handler w body = handle_payload handler w (decode body)

-- The port of a contact, empty if it has none.
unfoldable pub sig_port : NetworkNode → Text
sig_port target = elim (Assoc.lookup key_eq sig_port_name (entries target.meta)) [
  | none ↦ []
  | some port ↦ port
]

answer_text : Result Response → Result Text
answer_text (err e) = err (wrapped (codes "DirectSignaler: ") e)
answer_text (ok r) =
    if r.status == 200
    then ok r.body
    else err (message (codes "DirectSignaler: status " ++ decimal r.status ++ codes ": " ++ r.body))

-- `post` sends a body to an address and a port, and gets the response, or an error of the client.
-- That the request cannot be made for its URL, or its body not be read, is not modelled apart.
send_to :
    {W : Type 0}
    → (W → Bytes → Text → Bytes → W × Result Response)
    → (SignalPayload → Bytes)
    → W
    → NetworkNode
    → SignalPayload
    → Text
    → W × Result Text
send_to post encode w target payload [] = (
  w,
  err (
      message (
        codes "DirectSignaler: target "
        ++ hex_encode target.id
        ++ codes " has no sig_port in Meta")),
)
send_to post encode w target payload (c ∷ cs) =
    let (w', response) = post w target.address (c ∷ cs) (encode payload) in
    (w', answer_text response)

unfoldable pub send_offer :
    {W : Type 0}
    → (W → Bytes → Text → Bytes → W × Result Response)
    → (SignalPayload → Bytes)
    → W
    → NetworkNode
    → SignalPayload
    → W × Result Text
unfolding send_to answer_text
send_offer post encode w target payload = send_to post encode w target payload (sig_port target)

-- `Close`, where `shutdown` is what the server's `Shutdown` returns.
unfoldable pub close : DirectSignaler → Option Error → Option Error
close s shutdown = if s.has_server then shutdown else none
