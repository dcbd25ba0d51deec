-- ===== src/Webrtc/Peers/Leaks.antt =====
-- transport/webrtc/webrtc.go: which connections are left open.
use webrtc_dht.Prelude.{
  ℕ, ◌≡◌, sym, ap, ◌∙◌, ◌≢◌, ◌⊎◌, inl, inr, Bool, true, false, Option, none, some, Text, eq_of_some,
}
use webrtc_dht.Prelude.Assoc
use webrtc_dht.Key.{NodeId, key_eq}
use webrtc_dht.Types.{Error, Result, ok, err, NetworkNode}
use webrtc_dht.Signaling.{SignalPayload}
use webrtc_dht.Webrtc.Peers.{
  Pion, Peers, waited, answered, offered, described, created, with_blob, with_control, label_blob,
}

module _ (P : Pion) where
  open P use {
    World, new_pc, create_data_channel, create_offer, create_answer, set_local, set_remote_offer,
    set_remote_answer, wait_control, close_pc, send_offer,
  }

  -- What the library does with connections: a new one is open, one that is closed is not, and no
  -- other operation opens any.
  pub record IsPion : Type 0 where
    pub is_open : World → ℕ → Bool
    pub new_pc-open :
        (w : World) (d : ℕ)
        → is_open (new_pc w).0 d ≡ true
        → ((new_pc w).1 ≡ ok d) ⊎ (is_open w d ≡ true)
    pub close_pc-open :
        (w : World) (c d : ℕ) → is_open (close_pc w c).0 d ≡ true → (c ≢ d) × (is_open w d ≡ true)
    pub create_data_channel-open :
        (w : World) (c : ℕ) (label : Text) (d : ℕ)
        → is_open (create_data_channel w c label).0 d ≡ true
        → is_open w d ≡ true
    pub create_offer-open :
        (w : World) (c d : ℕ) → is_open (create_offer w c).0 d ≡ true → is_open w d ≡ true
    pub create_answer-open :
        (w : World) (c d : ℕ) → is_open (create_answer w c).0 d ≡ true → is_open w d ≡ true
    pub set_local-open :
        (w : World) (c : ℕ) (sdp : Text) (d : ℕ)
        → is_open (set_local w c sdp).0 d ≡ true
        → is_open w d ≡ true
    pub set_remote_offer-open :
        (w : World) (c : ℕ) (sdp : Text) (d : ℕ)
        → is_open (set_remote_offer w c sdp).0 d ≡ true
        → is_open w d ≡ true
    pub set_remote_answer-open :
        (w : World) (c : ℕ) (sdp : Text) (d : ℕ)
        → is_open (set_remote_answer w c sdp).0 d ≡ true
        → is_open w d ≡ true
    pub wait_control-open :
        (w : World) (c d : ℕ) → is_open (wait_control w c).0 d ≡ true → is_open w d ≡ true
    pub send_offer-open :
        (w : World) (target : NetworkNode) (payload : SignalPayload) (d : ℕ)
        → is_open (send_offer w target payload).0 d ≡ true
        → is_open w d ≡ true

module _ (P : Pion) (laws : IsPion P) where
  open P use {
    World, new_pc, create_data_channel, create_offer, create_answer, set_local, set_remote_offer,
    set_remote_answer, wait_control, close_pc, send_offer,
  }
  open laws use {is_open, new_pc-open, close_pc-open}

  -- Every connection that is open is in the map; while one is being made, every other one.
  abbrev pub IsKept : World → Peers → Type 0
  IsKept w peers =
      (d : ℕ) → is_open w d ≡ true → (id : NodeId) × (Assoc.lookup key_eq id peers ≡ some d)

  abbrev pub IsMaking : ℕ → World → Peers → Type 0
  IsMaking pc w peers =
      (d : ℕ)
      → is_open w d ≡ true
      → (d ≡ pc) ⊎ ((id : NodeId) × (Assoc.lookup key_eq id peers ≡ some d))

  pub give_up-IsKept :
      (pc : ℕ) (w : World) (peers : Peers) → IsMaking pc w peers → IsKept (close_pc w pc).0 peers
  give_up-IsKept pc w peers h d o =
      let (ne, before) = close_pc-open w pc d o in
      elim (h d before) [ inl e ↦ absurd (ne (sym e)) | inr kept ↦ kept ]

  give_up_removed :
      (id : NodeId) (pc : ℕ) (w : World) (peers : Peers)
      → Assoc.lookup key_eq id peers ≡ some pc
      → IsKept w peers
      → IsKept (close_pc w pc).0 (Assoc.remove key_eq id peers)
  give_up_removed id pc w peers here h d o =
      let (ne, before) = close_pc-open w pc d o in
      let (j, there) = h d before in
      elim (key_eq id j) [
        | yes same ↦
            absurd (ne (eq_of_some (sym here ∙ ap (λ i. Assoc.lookup key_eq i peers) same ∙ there)))
        | no other ↦ (j, Assoc.lookup-remove_ne key_eq id j peers other ∙ there)
      ]

  pub assign-IsKept :
      (id : NodeId) (pc : ℕ) (w : World) (peers : Peers)
      → Assoc.lookup key_eq id peers ≡ none
      → IsMaking pc w peers
      → IsKept w (Assoc.assign key_eq id pc peers)
  assign-IsKept id pc w peers fresh h d o = elim (h d o) [
    | inl e ↦ (id, Assoc.lookup-assign_self key_eq id pc peers ∙ ap some (sym e))
    | inr (j, there) ↦ elim (key_eq id j) [
      | yes same ↦ absurd (cc (fresh, there, same))
      | no other ↦ (j, Assoc.lookup-assign_ne key_eq id j pc peers other ∙ there)
    ]
  ]

  -- The steps of `connect`, from the last to the first.
  module _ (own target : NetworkNode) (pc : ℕ) where
    waited-IsKept :
        (peers : Peers) (r : World × Bool)
        → IsKept r.0 peers
        → IsKept (waited P own target peers pc r).0 (waited P own target peers pc r).1
    unfolding waited
    waited-IsKept peers (w, true) h = h
    waited-IsKept peers (w, false) h = h

    answered-IsKept :
        (peers : Peers) (r : World × Option Error)
        → Assoc.lookup key_eq target.id peers ≡ some pc
        → IsKept r.0 peers
        → IsKept (answered P own target peers pc r).0 (answered P own target peers pc r).1
    unfolding answered
    answered-IsKept peers (w, some e) here h = give_up_removed target.id pc w peers here h
    answered-IsKept peers (w, none) here h =
        waited-IsKept peers (wait_control w pc) (λ d o. h d (laws.wait_control-open w pc d o))

    offered-IsKept :
        (peers : Peers) (r : World × Result Text)
        → Assoc.lookup key_eq target.id peers ≡ some pc
        → IsKept r.0 peers
        → IsKept (offered P own target peers pc r).0 (offered P own target peers pc r).1
    unfolding offered
    offered-IsKept peers (w, err e) here h = give_up_removed target.id pc w peers here h
    offered-IsKept peers (w, ok sdp) here h =
        answered-IsKept peers (set_remote_answer w pc sdp) here
          (λ d o. h d (laws.set_remote_answer-open w pc sdp d o))

    module _ (peers : Peers) (fresh : Assoc.lookup key_eq target.id peers ≡ none) where
      described-IsKept :
          (r : World × Option Error)
          → IsMaking pc r.0 peers
          → IsKept (described P own target peers pc r).0 (described P own target peers pc r).1
      unfolding described
      described-IsKept (w, some e) h = give_up-IsKept pc w peers h
      described-IsKept (w, none) h =
          offered-IsKept (Assoc.assign key_eq target.id pc peers) _
            (Assoc.lookup-assign_self key_eq target.id pc peers)
            (λ d o.
              assign-IsKept target.id pc w peers fresh h d (laws.send_offer-open w target _ d o))

      created-IsKept :
          (r : World × Result Text)
          → IsMaking pc r.0 peers
          → IsKept (created P own target peers pc r).0 (created P own target peers pc r).1
      unfolding created
      created-IsKept (w, err e) h = give_up-IsKept pc w peers h
      created-IsKept (w, ok sdp) h =
          described-IsKept (set_local w pc sdp) (λ d o. h d (laws.set_local-open w pc sdp d o))

      with_blob-IsKept :
          (r : World × Option Error)
          → IsMaking pc r.0 peers
          → IsKept (with_blob P own target peers pc r).0 (with_blob P own target peers pc r).1
      unfolding with_blob
      with_blob-IsKept (w, some e) h = give_up-IsKept pc w peers h
      with_blob-IsKept (w, none) h =
          created-IsKept (create_offer w pc) (λ d o. h d (laws.create_offer-open w pc d o))

      pub with_control-IsKept :
          (r : World × Option Error)
          → IsMaking pc r.0 peers
          → IsKept (with_control P own target peers pc r).0 (with_control P own target peers pc r).1
      unfolding with_control
      with_control-IsKept (w, some e) h = give_up-IsKept pc w peers h
      with_control-IsKept (w, none) h =
          with_blob-IsKept (create_data_channel w pc label_blob)
            (λ d o. h d (laws.create_data_channel-open w pc label_blob d o))
