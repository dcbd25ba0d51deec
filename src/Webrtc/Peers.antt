-- ===== src/Webrtc/Peers.antt =====
-- transport/webrtc/webrtc.go: the connections of a transport. The library pion is given by its
-- operations on a world, and the signaler by `send_offer`; a connection, with the `peerConn` that
-- is made for it, is a number. The deadlines of 15 seconds are in what `wait_control` returns.
-- `connect` and `handleIncomingOffer` are whole here; Overlap has them in steps.
pub mod Leaks
pub mod Closing
pub mod Overlap
use webrtc_dht.Prelude.{ℕ, Bool, true, false, Option, none, some, List, [], ◌∷◌, ◌++◌, Text, codes}
use webrtc_dht.Prelude.Assoc
use webrtc_dht.Key.{NodeId, key_eq}
use webrtc_dht.Key.Hex.{hex_encode}
use webrtc_dht.Types.{Error, message, wrapped, Result, ok, err, NetworkNode}
use webrtc_dht.Signaling.{SignalPayload}

pub record Pion : Type 1 where
  pub World : Type 0
  pub new_pc : World → World × Result ℕ
  pub create_data_channel : World → ℕ → Text → World × Option Error
  pub create_offer : World → ℕ → World × Result Text
  pub create_answer : World → ℕ → World × Result Text
  pub set_local : World → ℕ → Text → World × Option Error
  pub local_sdp : World → ℕ → Text
  pub set_remote_offer : World → ℕ → Text → World × Option Error
  pub set_remote_answer : World → ℕ → Text → World × Option Error
  pub wait_control : World → ℕ → World × Bool
  pub close_pc : World → ℕ → World × Option Error
  pub send_offer : World → NetworkNode → SignalPayload → World × Result Text

-- The map `peers`.
abbrev pub Peers : Type 0
Peers = List (NodeId × ℕ)

abbrev pub label_control : Text
label_control = codes "dht-control"

abbrev pub label_blob : Text
label_blob = codes "dht-blob"

module _ (P : Pion) where
  open P use {
    World, new_pc, create_data_channel, create_offer, create_answer, set_local, local_sdp,
    set_remote_offer, set_remote_answer, wait_control, close_pc, send_offer,
  }

  -- An early return with an error, after the connection is closed.
  abbrev pub give_up {ℓ} : {A : Type ℓ} → Peers → ℕ → Error → World → World × Peers × Result A
  give_up peers pc e w = ((close_pc w pc).0, peers, err e)

  module _ (own target : NetworkNode) where
    -- The steps of `connect` from the last to the first: each takes what the call before returned.
    waited : Peers → ℕ → World × Bool → World × Peers × Result ℕ
    waited peers pc (w, true) = (w, peers, ok pc)
    waited peers pc (w, false) =
        (w, peers, err (message (codes "timeout waiting for data channel to open")))

    answered : Peers → ℕ → World × Option Error → World × Peers × Result ℕ
    unfolding waited
    answered peers pc (w, some e) = give_up (Assoc.remove key_eq target.id peers) pc e w
    answered peers pc (w, none) = waited peers pc (wait_control w pc)

    offered : Peers → ℕ → World × Result Text → World × Peers × Result ℕ
    unfolding answered
    offered peers pc (w, err e) =
        give_up (Assoc.remove key_eq target.id peers) pc (wrapped (codes "signaling: ") e) w
    offered peers pc (w, ok sdp) = answered peers pc (set_remote_answer w pc sdp)

    described : Peers → ℕ → World × Option Error → World × Peers × Result ℕ
    unfolding offered
    described peers pc (w, some e) = give_up peers pc e w
    described peers pc (w, none) =
        offered (Assoc.assign key_eq target.id pc peers) pc
          (send_offer w target (record { caller_id = own.id; sdp = local_sdp w pc }))

    created : Peers → ℕ → World × Result Text → World × Peers × Result ℕ
    unfolding described
    created peers pc (w, err e) = give_up peers pc e w
    created peers pc (w, ok offer) = described peers pc (set_local w pc offer)

    with_blob : Peers → ℕ → World × Option Error → World × Peers × Result ℕ
    unfolding created
    with_blob peers pc (w, some e) = give_up peers pc e w
    with_blob peers pc (w, none) = created peers pc (create_offer w pc)

    unfoldable pub with_control : Peers → ℕ → World × Option Error → World × Peers × Result ℕ
    unfolding with_blob
    with_control peers pc (w, some e) = give_up peers pc e w
    with_control peers pc (w, none) = with_blob peers pc (create_data_channel w pc label_blob)

    made : Peers → World × Result ℕ → World × Peers × Result ℕ
    unfolding with_control
    made peers (w, err e) = (w, peers, err e)
    made peers (w, ok pc) = with_control peers pc (create_data_channel w pc label_control)

    unfoldable pub connect : World → Peers → World × Peers × Result ℕ
    unfolding made
    connect w peers = made peers (new_pc w)

    ready : Peers → ℕ → World × Bool → World × Peers × Result ℕ
    ready peers pc (w, true) = (w, peers, ok pc)
    ready peers pc (w, false) = (
      w,
      peers,
      err (message (codes "peer " ++ hex_encode target.id ++ codes ": control channel not ready")),
    )

    peer_at : World → Peers → Option ℕ → World × Peers × Result ℕ
    unfolding ready
    peer_at w peers none = connect w peers
    peer_at w peers (some pc) = ready peers pc (wait_control w pc)

    unfoldable pub get_peer : World → Peers → World × Peers × Result ℕ
    unfolding peer_at
    get_peer w peers = peer_at w peers (Assoc.lookup key_eq target.id peers)

  module _ (payload : SignalPayload) where
    -- The steps of `handleIncomingOffer`, in the same way.
    answer_set : Peers → ℕ → World × Option Error → World × Peers × Result Text
    answer_set peers pc (w, some e) = give_up peers pc e w
    answer_set peers pc (w, none) =
        (w, Assoc.assign key_eq payload.caller_id pc peers, ok (local_sdp w pc))

    answer_made : Peers → ℕ → World × Result Text → World × Peers × Result Text
    unfolding answer_set
    answer_made peers pc (w, err e) = give_up peers pc e w
    answer_made peers pc (w, ok answer) = answer_set peers pc (set_local w pc answer)

    offer_set : Peers → ℕ → World × Option Error → World × Peers × Result Text
    unfolding answer_made
    offer_set peers pc (w, some e) = give_up peers pc e w
    offer_set peers pc (w, none) = answer_made peers pc (create_answer w pc)

    callee_made : Peers → World × Result ℕ → World × Peers × Result Text
    unfolding offer_set
    callee_made peers (w, err e) = (w, peers, err e)
    callee_made peers (w, ok pc) = offer_set peers pc (set_remote_offer w pc payload.sdp)

    unfoldable pub handle_incoming_offer : World → Peers → World × Peers × Result Text
    unfolding callee_made
    handle_incoming_offer w peers = callee_made peers (new_pc w)

  -- The errors that `errors.Join` joins.
  unfoldable pub close_peers : World → Peers → World × List Error
  close_peers w [] = (w, [])
  close_peers w ((id, pc) ∷ peers) =
      let (w₁, failed) = close_pc w pc in
      let (w₂, errs) = close_peers w₁ peers in (w₂, elim failed [ none ↦ errs | some e ↦ e ∷ errs ])

  -- `Close`; what the signaler's `Close` returns is dropped.
  unfoldable pub close_transport : World → Peers → World × Peers × List Error
  close_transport w peers = let (w', errs) = close_peers w peers in (w', [], errs)
