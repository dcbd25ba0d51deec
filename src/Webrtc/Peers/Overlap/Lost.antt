-- ===== src/Webrtc/Peers/Overlap/Lost.antt =====
-- transport/webrtc/webrtc.go: two tasks that connect to the same peer at once.
use webrtc_dht.Prelude.{ℕ, ◌≡◌, refl, arith, ◌≢◌, true, some, [], ◌∷◌, All, if_pos, sym, subst}
use webrtc_dht.Prelude.Assoc
use webrtc_dht.Key.{NodeId, key_eq}
use webrtc_dht.Webrtc.Peers.{Pion, Peers, close_peers, close_transport}
use webrtc_dht.Webrtc.Peers.Leaks.{IsPion}
use webrtc_dht.Webrtc.Peers.Overlap.{Errand, peer_of, placing, stage_step, advance}

-- A value that is put under a key twice is gone.
All-assign_twice :
    (key : NodeId) (c d : ℕ) (m : Peers)
    → d ≢ c
    → All (λ p. p.1 ≢ c) m
    → All (λ p. p.1 ≢ c) (Assoc.assign key_eq key d (Assoc.assign key_eq key c m))
unfolding Assoc.assign
All-assign_twice key c d [] ne h =
    subst (All (λ p. p.1 ≢ c)) (sym (if_pos (key_eq key key) refl _ _)) (ne, tt)
All-assign_twice key c d ((j, v) ∷ m) ne h = ground (arith, All-assign_twice key c d m ne h.1)

module _ (P : Pion) (laws : IsPion P)
    (spares : (w : P.World) (c d : ℕ)
      → c ≢ d
      → laws.is_open w d ≡ true
      → laws.is_open (P.close_pc w c).0 d ≡ true) where
  close_peers_spares :
      (w : P.World) (peers : Peers) (c : ℕ)
      → All (λ p. p.1 ≢ c) peers
      → laws.is_open w c ≡ true
      → laws.is_open (close_peers P w peers).0 c ≡ true
  unfolding close_peers
  close_peers_spares w [] c h o = o
  close_peers_spares w ((id, pc) ∷ peers) c h o =
      close_peers_spares (P.close_pc w pc).0 peers c h.1 (spares w pc c h.0 o)

  -- If two tasks at once have connected to the same peer, each with a connection that is open and
  -- not yet in the map, and both put it there, then the later one is found in the map; the other is
  -- not, and a Close that closes what it is to close leaves it open.
  pub placing-lost :
      (own : NodeId) (first second : Errand) (c d : ℕ) (w : P.World) (peers : Peers)
      → peer_of first ≡ peer_of second
      → d ≢ c
      → All (λ p. p.1 ≢ c) peers
      → laws.is_open w c ≡ true
      → let (w₁, peers₁, next₁) = advance P own first w peers (placing c) in
        let (w₂, peers₂, next₂) = advance P own second w₁ peers₁ (placing d) in
        (Assoc.lookup key_eq (peer_of second) peers₂ ≡ some d)
        × All (λ p. p.1 ≢ c) peers₂
        × (laws.is_open (close_transport P w₂ peers₂).0 c ≡ true)
  unfolding advance stage_step close_transport
  placing-lost own first second c d w peers same ne absent o =
      let gone =
        subst
          (λ k.
            All (λ p. p.1 ≢ c)
              (Assoc.assign key_eq k d (Assoc.assign key_eq (peer_of first) c peers)))
          same (All-assign_twice (peer_of first) c d peers ne absent) in
      (Assoc.lookup-assign_self key_eq (peer_of second) d _, gone, close_peers_spares w _ c gone o)
