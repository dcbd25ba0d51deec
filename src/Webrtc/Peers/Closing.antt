-- ===== src/Webrtc/Peers/Closing.antt =====
-- transport/webrtc/webrtc.go: `Close` leaves no connection open.
use webrtc_dht.Prelude.{
  ℕ, ◌≡◌, refl, sym, ◌∙◌, ◌≢◌, ◌⊎◌, inl, inr, Bool, Bool-cases, true, false, Option, none, some, [],
  ◌∷◌, Text, if_pos, if_neg, eq_of_some,
}
use webrtc_dht.Prelude.Assoc
use webrtc_dht.Key.{NodeId, key_eq}
use webrtc_dht.Types.{Error, Result, ok, err, ok-injective, NetworkNode}
use webrtc_dht.Signaling.{SignalPayload}
use webrtc_dht.Webrtc.Peers.{
  Pion, Peers, made, connect, ready, peer_at, get_peer, answer_set, answer_made, offer_set,
  callee_made, handle_incoming_offer, close_peers, close_transport, label_control,
}
use webrtc_dht.Webrtc.Peers.Leaks.{
  IsPion, IsKept, IsMaking, give_up-IsKept, assign-IsKept, with_control-IsKept,
}

module _ (P : Pion) (laws : IsPion P) where
  open P use {
    World, new_pc, create_data_channel, create_answer, set_local, set_remote_offer, wait_control,
    close_pc,
  }
  open laws use {is_open, new_pc-open, close_pc-open}

  -- What holds when a connection has been asked for.
  abbrev IsAsked : World × Result ℕ → Peers → Type 0
  IsAsked r peers =
      (d : ℕ)
      → is_open r.0 d ≡ true
      → (r.1 ≡ ok d) ⊎ ((id : NodeId) × (Assoc.lookup key_eq id peers ≡ some d))

  new_pc-IsAsked : (w : World) (peers : Peers) → IsKept P laws w peers → IsAsked (new_pc w) peers
  new_pc-IsAsked w peers h d o = elim (new_pc-open w d o) [
    | inl e ↦ inl e
    | inr before ↦ inr (h d before)
  ]

  asked_failed :
      (w : World) (e : Error) (peers : Peers) → IsAsked (w, err e) peers → IsKept P laws w peers
  asked_failed w e peers h d o = elim (h d o) [ inl f ↦ absurd (cc) | inr kept ↦ kept ]

  asked_made :
      (w : World) (pc : ℕ) (peers : Peers) → IsAsked (w, ok pc) peers → IsMaking P laws pc w peers
  asked_made w pc peers h d o = elim (h d o) [
    | inl e ↦ inl (sym (ok-injective e))
    | inr kept ↦ inr kept
  ]

  module _ (own target : NetworkNode) (peers : Peers) where
    made-IsKept :
        (r : World × Result ℕ)
        → Assoc.lookup key_eq target.id peers ≡ none
        → IsAsked r peers
        → IsKept P laws (made P own target peers r).0 (made P own target peers r).1
    unfolding made
    made-IsKept (w, err e) fresh h = asked_failed w e peers h
    made-IsKept (w, ok pc) fresh h =
        with_control-IsKept P laws own target pc peers fresh
          (create_data_channel w pc label_control)
          (λ d o. asked_made w pc peers h d (laws.create_data_channel-open w pc label_control d o))

    ready-IsKept :
        (pc : ℕ) (r : World × Bool)
        → IsKept P laws r.0 peers
        → IsKept P laws (ready P own target peers pc r).0 (ready P own target peers pc r).1
    unfolding ready
    ready-IsKept pc (w, true) h = h
    ready-IsKept pc (w, false) h = h

    peer_at-IsKept :
        (w : World) (found : Option ℕ)
        → Assoc.lookup key_eq target.id peers ≡ found
        → IsKept P laws w peers
        → IsKept P laws
            (peer_at P own target w peers found).0
            (peer_at P own target w peers found).1
    unfolding peer_at connect
    peer_at-IsKept w none fresh h = made-IsKept (new_pc w) fresh (new_pc-IsAsked w peers h)
    peer_at-IsKept w (some pc) there h =
        ready-IsKept pc (wait_control w pc) (λ d o. h d (laws.wait_control-open w pc d o))

  module _ (payload : SignalPayload) (peers : Peers)
      (fresh : Assoc.lookup key_eq payload.caller_id peers ≡ none) where
    answer_set-IsKept :
        (pc : ℕ) (r : World × Option Error)
        → IsMaking P laws pc r.0 peers
        → IsKept P laws (answer_set P payload peers pc r).0 (answer_set P payload peers pc r).1
    unfolding answer_set
    answer_set-IsKept pc (w, some e) h = give_up-IsKept P laws pc w peers h
    answer_set-IsKept pc (w, none) h = assign-IsKept P laws payload.caller_id pc w peers fresh h

    answer_made-IsKept :
        (pc : ℕ) (r : World × Result Text)
        → IsMaking P laws pc r.0 peers
        → IsKept P laws (answer_made P payload peers pc r).0 (answer_made P payload peers pc r).1
    unfolding answer_made
    answer_made-IsKept pc (w, err e) h = give_up-IsKept P laws pc w peers h
    answer_made-IsKept pc (w, ok sdp) h =
        answer_set-IsKept pc (set_local w pc sdp) (λ d o. h d (laws.set_local-open w pc sdp d o))

    offer_set-IsKept :
        (pc : ℕ) (r : World × Option Error)
        → IsMaking P laws pc r.0 peers
        → IsKept P laws (offer_set P payload peers pc r).0 (offer_set P payload peers pc r).1
    unfolding offer_set
    offer_set-IsKept pc (w, some e) h = give_up-IsKept P laws pc w peers h
    offer_set-IsKept pc (w, none) h =
        answer_made-IsKept pc (create_answer w pc) (λ d o. h d (laws.create_answer-open w pc d o))

    callee_made-IsKept :
        (r : World × Result ℕ)
        → IsAsked r peers
        → IsKept P laws (callee_made P payload peers r).0 (callee_made P payload peers r).1
    unfolding callee_made
    callee_made-IsKept (w, err e) h = asked_failed w e peers h
    callee_made-IsKept (w, ok pc) h =
        offer_set-IsKept pc (set_remote_offer w pc payload.sdp)
          (λ d o. asked_made w pc peers h d (laws.set_remote_offer-open w pc payload.sdp d o))

  -- What a transport does until it is closed: it looks for peers, connecting to those it has not,
  -- answers offers of callers it has no connection to, and meanwhile connections may close.
  pub data Reach : World → Peers → Type 0 where
    start : (w : World) → ((d : ℕ) → is_open w d ≢ true) → Reach w []
    calls :
        {w : World} {peers : Peers} (own target : NetworkNode)
        → Reach w peers
        → Reach (get_peer P own target w peers).0 (get_peer P own target w peers).1
    answers :
        {w : World} {peers : Peers} (payload : SignalPayload)
        → Assoc.lookup key_eq payload.caller_id peers ≡ none
        → Reach w peers
        → Reach
            (handle_incoming_offer P payload w peers).0
            (handle_incoming_offer P payload w peers).1
    passes :
        {w : World} {peers : Peers} (w' : World)
        → ((d : ℕ) → is_open w' d ≡ true → is_open w d ≡ true)
        → Reach w peers
        → Reach w' peers

  Reach-IsKept : {w : World} {peers : Peers} → Reach w peers → IsKept P laws w peers
  unfolding get_peer handle_incoming_offer
  Reach-IsKept (start w none_open) = λ d o. absurd (none_open d o)
  Reach-IsKept (calls {w} {peers} own target r) =
      peer_at-IsKept own target peers w (Assoc.lookup key_eq target.id peers) refl (Reach-IsKept r)
  Reach-IsKept (answers {w} {peers} payload fresh r) =
      callee_made-IsKept payload peers fresh (new_pc w) (new_pc-IsAsked w peers (Reach-IsKept r))
  Reach-IsKept (passes w' fewer r) = λ d o. Reach-IsKept r d (fewer d o)

  close_peers-open :
      (w : World) (peers : Peers) (d : ℕ)
      → is_open (close_peers P w peers).0 d ≡ true
      → (is_open w d ≡ true) × ((id : NodeId) → Assoc.lookup key_eq id peers ≢ some d)
  unfolding close_peers Assoc.lookup
  close_peers-open w [] d o = (o, λ id e. cc)
  close_peers-open w ((j, c) ∷ peers) d o =
      let (open_then, out) = close_peers-open (close_pc w c).0 peers d o in
      let (ne, before) = close_pc-open w c d open_then in
      (
        before,
        λ id e. elim (key_eq j id) [
          | yes same ↦ ne (eq_of_some (sym (if_pos (key_eq j id) same _ _) ∙ e))
          | no other ↦ out id (sym (if_neg (key_eq j id) other _ _) ∙ e)
        ],
      )

  -- If every connection that is open is in the map, Close leaves none open and none in the map.
  pub close_transport-IsKept :
      (w : World) (peers : Peers) (d : ℕ)
      → IsKept P laws w peers
      → (is_open (close_transport P w peers).0 d ≡ false) × ((close_transport P w peers).1 ≡ [])
  unfolding close_transport
  close_transport-IsKept w peers d h = elim (Bool-cases (is_open (close_peers P w peers).0 d)) [
    | inl o ↦
        let (before, out) = close_peers-open w peers d o in
        let (id, there) = h d before in absurd (out id there)
    | inr closed ↦ (closed, refl)
  ]

  -- However a transport was used before, in whatever order and with whatever failures of a
  -- library that opens no connection but a new one, Close leaves none of its connections open and
  -- none in the map; as long as no operation runs during another, and no offer comes from a
  -- caller to which there is a connection already.
  pub close_transport-Reach :
      {w : World} {peers : Peers} (d : ℕ)
      → Reach w peers
      → (is_open (close_transport P w peers).0 d ≡ false) × ((close_transport P w peers).1 ≡ [])
  close_transport-Reach {w} {peers} d r = close_transport-IsKept w peers d (Reach-IsKept r)
