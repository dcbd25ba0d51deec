-- ===== src/Signaling/Dht/Served.antt =====
-- transport/webrtc/signaling.go, `DHTSignaler`: the node that is called looks at its bell, and the
-- caller gets its answer.
use webrtc_dht.Prelude.{
  ℕ, suc, ◌+◌, ◌*◌, ◌≤◌, ◌≡◌, refl, ap, ◌∙◌, ◌≢◌, true, false, Option, none, some, List, [], ◌∷◌,
  arith, Text, Bytes, if_pos, pos,
}
use webrtc_dht.Key.{NodeId, IsKey, key_eq}
use webrtc_dht.Types.{Result, ok}
use webrtc_dht.Lookup.{is_visited}
use webrtc_dht.Signaling.{SignalPayload}
use webrtc_dht.Signaling.Dht.{
  Dht, OfferEntry, inline_meta, is_stale, dht_offer_key, dht_answer_key, dht_doorbell_key, ringing,
  entry_in, fresh_offer, Job, poll_caller, poll_round, unmark, store_answer, run_job, answer_in,
  send_offer, started, found_offer, polled, silence,
}
use webrtc_dht.Signaling.Dht.Relay.{
  IsReliable, read-write_self, read-write_ne, with_offer, with_bell, send_offer-read,
}

module _ (D : Dht) (sha1 : Bytes → Bytes) (encode : OfferEntry → Bytes)
    (decode : Bytes → Result OfferEntry) where
  -- A round of `pollOffers` and the job that it starts, with nothing in between.
  pub served :
      (D.World → SignalPayload → D.World × Result Text)
      → NodeId
      → D.World × List NodeId × Option (Job D sha1 encode decode)
      → D.World × List NodeId
  served handler own (w, processing, none) = (w, processing)
  served handler own (w, processing, some job) =
      run_job D sha1 encode decode handler own processing w job

  ringing-inline :
      (caller : NodeId)
      → IsKey caller
      → ringing D sha1 encode decode (some (inline_meta (some caller))) none ≡ some caller
  unfolding ringing inline_meta
  ringing-inline caller h = ground (arith, h.size)

  fresh_offer-inline :
      (now : ℕ) (entry : OfferEntry)
      → decode (encode entry) ≡ ok entry
      → is_stale now entry.timestamp ≡ false
      → fresh_offer D sha1 encode decode now (some (inline_meta (some (encode entry)))) none
        ≡ some entry
  unfolding fresh_offer entry_in inline_meta
  fresh_offer-inline now entry back fresh = rw (back, fresh)

  answer_in-inline :
      (answer : Text)
      → answer ≢ []
      → answer_in D sha1 encode decode (some (inline_meta (some answer))) none ≡ some answer
  unfolding answer_in inline_meta
  answer_in-inline [] h = absurd (h refl)
  answer_in-inline (c ∷ cs) h = ground arith

  not-stale :
      (seconds now : ℕ) → now ≤ (seconds + 30) * 1000000000 → is_stale now (pos seconds) ≡ false
  unfolding is_stale
  not-stale seconds now h = ground arith

  module _ (reliable : IsReliable D) (reply : SignalPayload → Result Text) (own : NodeId)
      (payload : SignalPayload) (seconds now : ℕ) (w : D.World) (answer : Text) where
    open reliable use {write, store_value-write, find_value-read}

    abbrev pub rung_world : D.World
    rung_world = with_bell D reliable sha1 encode decode seconds own payload w

    abbrev pub entry : OfferEntry
    entry = record { payload = payload; timestamp = pos seconds }

    abbrev job : Job D sha1 encode decode
    job = record { caller = payload.caller_id; entry = entry }

    abbrev pub answered_world : D.World
    answered_world =
        write
          (write rung_world (dht_answer_key sha1 payload.caller_id own) (inline_meta (some answer)))
          (dht_doorbell_key sha1 own) (inline_meta none)

    abbrev pub handler : D.World → SignalPayload → D.World × Result Text
    handler u p = (u, reply p)

    poll_round-rung :
        IsKey payload.caller_id
        → decode (encode entry) ≡ ok entry
        → now ≤ (seconds + 30) * 1000000000
        → dht_doorbell_key sha1 own ≢ dht_offer_key sha1 payload.caller_id own
        → poll_round D sha1 encode decode true now own [] rung_world
          ≡ (rung_world, payload.caller_id ∷ [], some job)
    unfolding poll_round polled poll_caller found_offer started is_visited
    poll_round-rung is_key back fresh apart =
        let bell = dht_doorbell_key sha1 own in
        let offer = dht_offer_key sha1 payload.caller_id own in
        let offered_world = with_offer D reliable sha1 encode decode seconds own payload w in
        let there =
          read-write_ne D reliable offered_world bell offer _ apart
          ∙ read-write_self D reliable w offer _ in
        ap (polled D sha1 encode decode now own [])
          (find_value-read rung_world bell _ (read-write_self D reliable offered_world bell _))
        ∙ ap (poll_caller D sha1 encode decode now own [] rung_world)
            (ringing-inline payload.caller_id is_key)
        ∙ ap (found_offer D sha1 encode decode now [] payload.caller_id)
            (find_value-read rung_world offer _ there)
        ∙ ap (started D sha1 encode decode [] payload.caller_id rung_world)
            (fresh_offer-inline now entry back (not-stale seconds now fresh))

    run_job-answered :
        reply payload ≡ ok answer
        → run_job D sha1 encode decode handler own (payload.caller_id ∷ []) rung_world job
          ≡ (answered_world, [])
    unfolding run_job store_answer silence unmark
    run_job-answered e =
        let bell = dht_doorbell_key sha1 own in
        let answer_key = dht_answer_key sha1 payload.caller_id own in
        let replied =
          ap (store_answer D sha1 encode decode own payload.caller_id) (ap (λ r. (rung_world, r)) e)
          ∙ ap (silence D sha1 encode decode own)
              (store_value-write rung_world answer_key (inline_meta (some answer)))
          ∙ ap (λ r. r.0)
              (store_value-write (write rung_world answer_key (inline_meta (some answer))) bell
                (inline_meta none)) in
        ap (λ u. (u, unmark D sha1 encode decode payload.caller_id (payload.caller_id ∷ [])))
          replied
        ∙ ap (λ l. (answered_world, l))
            (if_pos (key_eq payload.caller_id payload.caller_id) refl _ _)

    served-answered :
        IsKey payload.caller_id
        → decode (encode entry) ≡ ok entry
        → now ≤ (seconds + 30) * 1000000000
        → dht_doorbell_key sha1 own ≢ dht_offer_key sha1 payload.caller_id own
        → reply payload ≡ ok answer
        → served handler own (poll_round D sha1 encode decode true now own [] rung_world)
          ≡ (answered_world, [])
    unfolding served
    served-answered is_key back fresh apart e =
        ap (served handler own) (poll_round-rung is_key back fresh apart) ∙ run_job-answered e

    -- Where the table loses nothing, the keys of the offer, the answer and the bell differ, and
    -- the entry with the offer is read back as it was written: if the called node polls while the
    -- caller waits, at most 30 seconds after the offer was stored, and its handler gives an
    -- answer that is not empty, then the caller of SendOffer gets this answer at its first look.
    -- The round of the called node leaves no caller marked.
    pub send_offer-served :
        (fuel : ℕ)
        → IsKey payload.caller_id
        → decode (encode entry) ≡ ok entry
        → now ≤ (seconds + 30) * 1000000000
        → dht_doorbell_key sha1 own ≢ dht_offer_key sha1 payload.caller_id own
        → dht_doorbell_key sha1 own ≢ dht_answer_key sha1 payload.caller_id own
        → answer ≢ []
        → reply payload ≡ ok answer
        → (send_offer D sha1 encode decode
              (λ u.
                ((served handler own (poll_round D sha1 encode decode true now own [] u)).0, none))
              (suc fuel)
              true
              seconds
              own
              payload
              w
            ≡ some (answered_world, ok answer))
          × ((served handler own (poll_round D sha1 encode decode true now own [] rung_world)).1
              ≡ [])
    send_offer-served fuel is_key back fresh apart quiet nonempty e =
        let round = served-answered is_key back fresh apart e in
        let bell = dht_doorbell_key sha1 own in
        let answer_key = dht_answer_key sha1 payload.caller_id own in
        let answered = write rung_world answer_key (inline_meta (some answer)) in
        let there =
          read-write_ne D reliable answered bell answer_key (inline_meta none) quiet
          ∙ read-write_self D reliable rung_world answer_key (inline_meta (some answer)) in
        (
          send_offer-read D reliable sha1 encode decode _ fuel seconds own payload w answered_world
              (inline_meta (some answer)) answer (ap (λ r. (r.0, none)) round) there
              (answer_in-inline answer nonempty),
          ap (λ r. r.1) round,
        )
