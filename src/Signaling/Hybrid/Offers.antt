-- ===== src/Signaling/Hybrid/Offers.antt =====
-- transport/webrtc/signaling.go, `HybridSignaler`: which way an offer goes.
use webrtc_dht.Prelude.{
  ℕ, ◌≡◌, refl, sym, ap, ◌∙◌, ◌≢◌, Option, some, [], Text, Bytes, decimal_int, if_pos, if_neg, ◌⊎◌,
  codes,
}
use webrtc_dht.Key.{key_eq}
use webrtc_dht.Types.{Error, wrapped, Result, ok, err, NetworkNode}
use webrtc_dht.Signaling.{SignalPayload}
use webrtc_dht.Signaling.Direct
use webrtc_dht.Signaling.Direct.{sig_port, Response}
use webrtc_dht.Signaling.Direct.Offers.{
  carry, reported, send_offer-listen_offers, send_offer-refused, sig_port-listen_offers,
  decimal_int-ne-nil,
}
use webrtc_dht.Signaling.Dht
use webrtc_dht.Signaling.Dht.{Dht, OfferEntry}
use webrtc_dht.Signaling.Hybrid.{HybridSignaler, listened, listen_offers, send_offer, has_node}

module _ {N : Type 0} (D : Dht) (decode : Bytes → Result SignalPayload)
    (encode : SignalPayload → Bytes) (handler : D.World → SignalPayload → D.World × Result Text)
    (sha1 : Bytes → Bytes) (encode_entry : OfferEntry → Bytes)
    (decode_entry : Bytes → Result OfferEntry) (pause : D.World → D.World × Option Error)
    (fuel now : ℕ) (h callee : HybridSignaler N) (payload : SignalPayload) (w : D.World)
    (own : NetworkNode) (refused : Error) where
  -- The network, with the node `own`, which listens with the signaler `callee`.
  abbrev pub network : D.World → Bytes → Text → Bytes → D.World × Result Response
  network = carry decode encode handler own callee.direct.port refused

  abbrev pub sent : NetworkNode → Option (D.World × Result Text)
  sent target =
      send_offer D network encode sha1 encode_entry decode_entry pause fuel now h target payload w

  sent-direct :
      (target : NetworkNode)
      → sig_port target ≢ []
      → sent target ≡ some (Direct.send_offer network encode w target payload)
  unfolding send_offer
  sent-direct target some_port = if_neg (key_eq (sig_port target) []) some_port _ _

  sent-dht :
      (target : NetworkNode)
      → sig_port target ≡ []
      → sent target
        ≡ Dht.send_offer D sha1 encode_entry decode_entry pause fuel
            (has_node h.dht_sig)
            now
            target.id
            payload
            w
  unfolding send_offer
  sent-dht target no_port = if_pos (key_eq (sig_port target) []) no_port _ _

  -- Where a payload is read back as it was written, and the network carries requests to the address
  -- and the port on which a node listens with a hybrid signaler, and refuses others: an offer to
  -- the contact that the node has once it listens goes to the node itself, whose handler runs on
  -- it, and the caller has its answer or an error with its text. A contact with another address or
  -- port for signals gives the error of the network, and nobody sees the offer. Neither uses the
  -- hash table; an offer to a contact without a port for signals does.
  pub send_offer-listen_hybrid :
      (target : NetworkNode)
      → decode (encode payload) ≡ ok payload
      → (sent (listen_offers callee own).1
          ≡ some ((handler w payload).0, reported (handler w payload).1))
        × (sig_port target ≢ []
            → (target.address ≢ own.address) ⊎ (sig_port target ≢ decimal_int callee.direct.port)
            → sent target ≡ some (w, err (wrapped (codes "DirectSignaler: ") refused)))
        × (sig_port target ≡ []
            → sent target
              ≡ Dht.send_offer D sha1 encode_entry decode_entry pause fuel
                  (has_node h.dht_sig)
                  now
                  target.id
                  payload
                  w)
  unfolding listen_offers listened Direct.listen_offers
  send_offer-listen_hybrid target back =
      let listening = (Direct.listen_offers callee.direct own).1 in
      let port = callee.direct.port in
      (
        sent-direct listening
              (λ e. decimal_int-ne-nil port (sym (sig_port-listen_offers callee.direct own) ∙ e))
            ∙ ap some (
                send_offer-listen_offers decode encode handler own port refused w callee.direct
                  payload refl back),
        λ some_port away.
            sent-direct target some_port
            ∙ ap some (
                send_offer-refused decode encode handler own port refused w target payload some_port
                  away),
        sent-dht target,
      )
