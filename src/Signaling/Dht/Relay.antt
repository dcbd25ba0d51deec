-- ===== src/Signaling/Dht/Relay.antt =====
-- transport/webrtc/signaling.go, `DHTSignaler`: an offer and its answer by way of the hash table.
use webrtc_dht.Prelude.{
  ℕ, suc, ◌≡◌, refl, ap, ◌∙◌, ◌≢◌, true, Option, none, some, ite, Text, Bytes, if_pos, if_neg, pos,
}
use webrtc_dht.Key.{Key, NodeId, key_eq}
use webrtc_dht.Types.{Error, Result, ok, ValueMeta}
use webrtc_dht.Signaling.{SignalPayload}
use webrtc_dht.Signaling.Dht.{
  Dht, OfferEntry, inline_meta, dht_offer_key, dht_answer_key, dht_doorbell_key, answer_in,
  await_answer, store_offer, offered, send_offer, ring, rung, awaited, looked,
}

-- A hash table that loses nothing: every write is done, and every value is found until it is
-- overwritten.
pub record IsReliable (D : Dht) : Type 0 where
  pub write : D.World → Key → ValueMeta → D.World
  pub read : D.World → Key → Option ValueMeta
  pub store_value-write :
      (w : D.World) (k : Key) (v : ValueMeta) → D.store_value w k v ≡ (write w k v, none)
  pub find_value-read :
      (w : D.World) (k : Key) (v : ValueMeta)
      → read w k ≡ some v
      → D.find_value w k ≡ (w, some v, none)
  pub read-write :
      (w : D.World) (k j : Key) (v : ValueMeta)
      → read (write w k v) j ≡ ite (key_eq k j) (some v) (read w j)

module _ (D : Dht) (reliable : IsReliable D) where
  open reliable use {write, read, store_value-write, find_value-read, read-write}

  pub read-write_self : (w : D.World) (k : Key) (v : ValueMeta) → read (write w k v) k ≡ some v
  read-write_self w k v = read-write w k k v ∙ if_pos (key_eq k k) refl _ _

  pub read-write_ne :
      (w : D.World) (k j : Key) (v : ValueMeta) → k ≢ j → read (write w k v) j ≡ read w j
  read-write_ne w k j v h = read-write w k j v ∙ if_neg (key_eq k j) h _ _

  module _ (sha1 : Bytes → Bytes) (encode : OfferEntry → Bytes)
      (decode : Bytes → Result OfferEntry) where
    -- The state after an offer has been stored, and after the bell has been rung.
    abbrev pub offer_value : ℕ → SignalPayload → ValueMeta
    offer_value now payload =
        inline_meta (some (encode (record { payload = payload; timestamp = pos now })))

    abbrev pub with_offer : ℕ → NodeId → SignalPayload → D.World → D.World
    with_offer now target payload w =
        write w (dht_offer_key sha1 payload.caller_id target) (offer_value now payload)

    abbrev pub with_bell : ℕ → NodeId → SignalPayload → D.World → D.World
    with_bell now target payload w =
        write (with_offer now target payload w) (dht_doorbell_key sha1 target)
          (inline_meta (some payload.caller_id))

    store_offer-write :
        (now : ℕ) (target : NodeId) (payload : SignalPayload) (w : D.World)
        → store_offer D sha1 encode decode now target payload w
          ≡ (with_bell now target payload w, none)
    unfolding store_offer ring rung
    store_offer-write now target payload w =
        ap (ring D sha1 encode decode target payload.caller_id) (store_value-write w _ _)
        ∙ ap (rung D sha1 encode decode) (store_value-write (with_offer now target payload w) _ _)

    -- The first look finds the answer, if one is there.
    await_answer-read :
        (pause : D.World → D.World × Option Error) (fuel : ℕ) (w w' : D.World) (key : Key)
        (v : ValueMeta) (answer : Text)
        → pause w ≡ (w', none)
        → read w' key ≡ some v
        → answer_in D sha1 encode decode (some v) none ≡ some answer
        → await_answer D sha1 encode decode pause key (suc fuel) w ≡ some (w', ok answer)
    unfolding await_answer awaited looked
    await_answer-read pause fuel w w' key v answer p r a =
        let again = await_answer D sha1 encode decode pause key fuel in
        ap (awaited D sha1 encode decode again key) p
        ∙ ap (looked D sha1 encode decode again) (find_value-read w' key v r)
        ∙ rw (a, looked)

    pub send_offer-read :
        (pause : D.World → D.World × Option Error) (fuel now : ℕ) (target : NodeId)
        (payload : SignalPayload) (w w' : D.World) (v : ValueMeta) (answer : Text)
        → pause (with_bell now target payload w) ≡ (w', none)
        → read w' (dht_answer_key sha1 payload.caller_id target) ≡ some v
        → answer_in D sha1 encode decode (some v) none ≡ some answer
        → send_offer D sha1 encode decode pause (suc fuel) true now target payload w
          ≡ some (w', ok answer)
    unfolding send_offer offered
    send_offer-read pause fuel now target payload w w' v answer p r a =
        ap
          (offered D sha1 encode decode pause (suc fuel)
            (dht_answer_key sha1 payload.caller_id target))
          (store_offer-write now target payload w)
        ∙ await_answer-read pause fuel _ w' _ v answer p r a

    -- An answer stays in the table: where the table loses nothing, the keys of the offer and of
    -- the bell differ from that of the answer, and the answer of an earlier call to the node is
    -- there, the next call is given the old answer at once, whatever it offers, and while the
    -- node does nothing.
    pub send_offer_outdated :
        (fuel now : ℕ) (target : NodeId) (payload : SignalPayload) (w : D.World) (v : ValueMeta)
        (old : Text)
        → dht_offer_key sha1 payload.caller_id target ≢ dht_answer_key sha1 payload.caller_id target
        → dht_doorbell_key sha1 target ≢ dht_answer_key sha1 payload.caller_id target
        → read w (dht_answer_key sha1 payload.caller_id target) ≡ some v
        → answer_in D sha1 encode decode (some v) none ≡ some old
        → send_offer D sha1 encode decode (λ u. (u, none)) (suc fuel) true now target payload w
          ≡ some (with_bell now target payload w, ok old)
    send_offer_outdated fuel now target payload w v old apart quiet there a =
        send_offer-read (λ u. (u, none)) fuel now target payload w _ v old refl
          (read-write_ne (with_offer now target payload w) (dht_doorbell_key sha1 target)
              (dht_answer_key sha1 payload.caller_id target) _ quiet
            ∙ read-write_ne w (dht_offer_key sha1 payload.caller_id target)
                (dht_answer_key sha1 payload.caller_id target) _ apart
            ∙ there)
          a
