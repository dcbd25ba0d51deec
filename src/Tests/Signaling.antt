-- ===== src/Tests/Signaling.antt =====
-- The theorems of the signalers without a server, applied.
use webrtc_dht.Prelude.{
  ℕ, ◌≡◌, refl, ◌≢◌, ◌++◌, true, none, some, [], ◌∷◌, Option, Text, Bytes, codes, arith, take, drop,
  pos, ite, get_or, if_pos, ap, List, ◌⊎◌, decimal_int,
}
use webrtc_dht.Prelude.Assoc
use webrtc_dht.Key.{Key, key_eq}
use webrtc_dht.Types.{not_found, wrapped, Result, ok, err, NetworkNode, ValueMeta}
use webrtc_dht.Signaling.Direct.{sig_port, sig_port_name}
use webrtc_dht.Signaling.{SignalPayload}
use webrtc_dht.Signaling.Dht
use webrtc_dht.Signaling.Dht.{
  Dht, OfferEntry, inline_meta, dht_offer_key, dht_answer_key, dht_doorbell_key, answer_in,
  poll_round,
}
use webrtc_dht.Signaling.Dht.Relay.{IsReliable, with_bell, send_offer_outdated}
use webrtc_dht.Signaling.Dht.Served.{served, rung_world, answered_world, send_offer-served}
use webrtc_dht.Signaling.Hybrid
use webrtc_dht.Signaling.Hybrid.{HybridSignaler, new_hybrid_signaler, has_node}
use webrtc_dht.Signaling.Hybrid.Offers.{sent, send_offer-listen_hybrid}
use webrtc_dht.Tests.Data.{key, key-IsKey, peer}

abbrev payload : SignalPayload
payload = record { caller_id = key 9; sdp = codes "v=0" }

-- A form of payloads and entries for these tests.
abbrev encode_payload : SignalPayload → Bytes
encode_payload p = p.caller_id ++ p.sdp

abbrev decode_payload : Bytes → Result SignalPayload
decode_payload b = ok (record { caller_id = take 20 b; sdp = drop 20 b })

abbrev encode : OfferEntry → Bytes
encode e = encode_payload e.payload

abbrev decode_entry : Bytes → Result OfferEntry
decode_entry b =
    ok (record { payload = record { caller_id = take 20 b; sdp = drop 20 b }; timestamp = pos 100 })

abbrev pub sha1 : Bytes → Bytes
sha1 b = b

abbrev answer : Text
answer = codes "answer"

answer-ne : answer ≢ []
unfolding codes
answer-ne e = cc

-- The hash table as a list of entries.
abbrev pub dht : Dht
dht = record {
  World = List (Key × ValueMeta);
  find_value = λ w k. (w, Assoc.lookup key_eq k w, none);
  store_value = λ w k v. (Assoc.assign key_eq k v w, none);
}

abbrev handler : dht.World → SignalPayload → dht.World × Result Text
handler w p = (w, ok answer)

read_back : decode_payload (encode_payload payload) ≡ ok payload
unfolding codes
read_back = refl

entry_back :
    decode_entry (encode (record { payload = payload; timestamp = pos 100 }))
    ≡ ok (record { payload = payload; timestamp = pos 100 })
unfolding codes
entry_back = refl

pub write_then_read :
    (w : dht.World) (k j : Key) (v : ValueMeta)
    → Assoc.lookup key_eq j (Assoc.assign key_eq k v w)
      ≡ ite (key_eq k j) (some v) (Assoc.lookup key_eq j w)
write_then_read w k j v = Assoc.lookup-assign key_eq k j v w

pub found :
    (w : dht.World) (k : Key) (v : ValueMeta)
    → Assoc.lookup key_eq k w ≡ some v
    → dht.find_value w k ≡ (w, some v, none)
found w k v e = ap (λ (r : Option ValueMeta). (w, r, none)) e

abbrev pub reliable : IsReliable dht
reliable = record {
  write = λ w k v. Assoc.assign key_eq k v w;
  read = λ w k. Assoc.lookup key_eq k w;
  store_value-write = λ w k v. refl;
  find_value-read = found;
  read-write = write_then_read;
}

bell-ne-offer : dht_doorbell_key sha1 (key 2) ≢ dht_offer_key sha1 (key 9) (key 2)
unfolding dht_doorbell_key dht_offer_key codes
bell-ne-offer e = let c : ◌≡◌ {A = ℕ} 98 111 = ap (λ t. get_or t 3 0) e in omega arith

bell-ne-answer : dht_doorbell_key sha1 (key 2) ≢ dht_answer_key sha1 (key 9) (key 2)
unfolding dht_doorbell_key dht_answer_key codes
bell-ne-answer e = let c : ◌≡◌ {A = ℕ} 98 97 = ap (λ t. get_or t 3 0) e in omega arith

offer-ne-answer : dht_offer_key sha1 (key 9) (key 2) ≢ dht_answer_key sha1 (key 9) (key 2)
unfolding dht_offer_key dht_answer_key codes
offer-ne-answer e = let c : ◌≡◌ {A = ℕ} 111 97 = ap (λ t. get_or t 3 0) e in omega arith

send_offer-served_example :
    let w =
      answered_world dht sha1 encode decode_entry reliable
        (λ p. ok answer)
        (key 2)
        payload
        100
        110
        []
        answer in
    let rung =
      rung_world dht sha1 encode decode_entry reliable
        (λ p. ok answer)
        (key 2)
        payload
        100
        110
        []
        answer in
    (Dht.send_offer dht sha1 encode decode_entry
        (λ u. (
          (served dht sha1 encode decode_entry handler
              (key 2)
              (poll_round dht sha1 encode decode_entry true 110 (key 2) [] u)).0,
          none,
        ))
        1
        true
        100
        (key 2)
        payload
        []
      ≡ some (w, ok answer))
    × ((served dht sha1 encode decode_entry handler
          (key 2)
          (poll_round dht sha1 encode decode_entry true 110 (key 2) [] rung)).1
        ≡ [])
send_offer-served_example =
    send_offer-served dht sha1 encode decode_entry reliable (λ p. ok answer) (key 2) payload 100 110
      [] answer 0 (key-IsKey 9 (omega arith)) entry_back (omega arith) bell-ne-offer bell-ne-answer
      answer-ne refl

abbrev old_world : dht.World
old_world = (dht_answer_key sha1 (key 9) (key 2), inline_meta (some answer)) ∷ []

old_answer :
    Assoc.lookup key_eq (dht_answer_key sha1 (key 9) (key 2)) old_world
    ≡ some (inline_meta (some answer))
unfolding Assoc.lookup
old_answer =
    if_pos (key_eq (dht_answer_key sha1 (key 9) (key 2)) (dht_answer_key sha1 (key 9) (key 2))) refl
      _ _

old_text :
    answer_in dht sha1 encode decode_entry (some (inline_meta (some answer))) none ≡ some answer
unfolding answer_in inline_meta codes
old_text = refl

send_offer_outdated_example :
    Dht.send_offer dht sha1 encode decode_entry
      (λ u. (u, none))
      1
      true
      100
      (key 2)
      payload
      old_world
    ≡ some
        (with_bell dht reliable sha1 encode decode_entry 100 (key 2) payload old_world, ok answer)
send_offer_outdated_example =
    send_offer_outdated dht reliable sha1 encode decode_entry 0 100 (key 2) payload old_world
      (inline_meta (some answer)) answer offer-ne-answer bell-ne-answer old_answer old_text

abbrev hybrid : HybridSignaler ℕ
hybrid = new_hybrid_signaler (pos 7000)

-- A contact of the node 2 from before it listened on its port.
abbrev outdated : NetworkNode
outdated = record (peer 2) { meta = some ((sig_port_name, codes "80") ∷ []) }

abbrev sent_to : NetworkNode → Option (dht.World × Result Text)
sent_to =
    sent dht decode_payload encode_payload handler sha1 encode decode_entry (λ u. (u, none)) 1 100
      hybrid hybrid payload [] (peer 2) not_found

send_offer-listen_hybrid_example :
    (sent_to (Hybrid.listen_offers hybrid (peer 2)).1 ≡ some ([], ok answer))
    × (sig_port outdated ≢ []
        → (outdated.address ≢ (peer 2).address)
          ⊎ (sig_port outdated ≢ decimal_int hybrid.direct.port)
        → sent_to outdated ≡ some ([], err (wrapped (codes "DirectSignaler: ") not_found)))
    × (sig_port outdated ≡ []
        → sent_to outdated
          ≡ Dht.send_offer dht sha1 encode decode_entry
              (λ u. (u, none))
              1
              (has_node hybrid.dht_sig)
              100
              (key 2)
              payload
              [])
send_offer-listen_hybrid_example =
    send_offer-listen_hybrid dht decode_payload encode_payload handler sha1 encode decode_entry
      (λ u. (u, none)) 1 100 hybrid hybrid payload [] (peer 2) not_found outdated read_back
