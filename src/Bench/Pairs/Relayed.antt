-- ===== src/Bench/Pairs/Relayed.antt =====
-- cmd/bench_signaling/main.go: a caller over the hash table, and a callee that looks at its bell.
use webrtc_dht.Prelude.{
  ℕ, suc, Bool, ◌≡◌, ap, ◌∙◌, ◌≢◌, true, false, none, some, arith, Bytes, codes, take, take_all,
  length, subst, ◌≤◌,
}
use webrtc_dht.Key.{NodeId, IsKey}
use webrtc_dht.Signaling.Dht.{Dht, inline_meta}
use webrtc_dht.Signaling.Dht.Relay.{IsReliable, read-write_self, read-write_ne}
use webrtc_dht.Bench.Pairs.{
  pair_offer_key, pair_answer_key, pair_bell_key, inline_bytes, answer_to_offer, offer_data,
  answer_pair, offer_looked, bell_heard, bell_looked, callee_round, caller_found, caller_looked,
  caller_tick, caller_wait, caller_rung, caller_stored, run_caller,
}

inline_bytes-inline :
    (least : ℕ) (bytes : Bytes)
    → least ≤ length bytes
    → inline_bytes least (some (inline_meta (some bytes))) none ≡ some bytes
unfolding inline_bytes inline_meta
inline_bytes-inline least bytes h = ground arith

take_key : (id : NodeId) → IsKey id → take 20 id ≡ id
take_key id k = subst (λ n. take n id ≡ id) k.size (take_all id)

module _ (D : Dht) (sha1 : Bytes → Bytes) (reliable : IsReliable D) (caller callee : NodeId)
    (pair_id : ℕ) (w : D.World) where
  open reliable use {write, store_value-write, find_value-read}

  abbrev pub bell : NodeId
  bell = pair_bell_key sha1 callee

  abbrev pub offer_key : NodeId
  offer_key = pair_offer_key sha1 caller callee

  abbrev pub answer_key : NodeId
  answer_key = pair_answer_key sha1 caller callee

  abbrev pub offered_world : D.World
  offered_world = write w offer_key (inline_meta (some (offer_data pair_id)))

  abbrev pub rung_world : D.World
  rung_world = write offered_world bell (inline_meta (some caller))

  abbrev pub pair_answered : D.World
  pair_answered =
      write rung_world answer_key (inline_meta (some (answer_to_offer (offer_data pair_id))))

  abbrev pub silent_world : D.World
  silent_world = write pair_answered bell (inline_meta none)

  answer_pair-silent :
      answer_pair D sha1 caller callee rung_world (some (offer_data pair_id)) ≡ (silent_world, true)
  unfolding answer_pair
  answer_pair-silent =
      ap (λ r. ((D.store_value r.0 bell (inline_meta none)).0, true))
        (store_value-write rung_world answer_key _)
      ∙ ap (λ r. (r.0, true)) (store_value-write pair_answered bell (inline_meta none))

  callee_round-rung :
      IsKey caller → bell ≢ offer_key → callee_round D sha1 callee rung_world ≡ (silent_world, true)
  unfolding callee_round bell_looked bell_heard offer_looked
  callee_round-rung k apart =
      let offer : reliable.read rung_world offer_key
          ≡ some (inline_meta (some (offer_data pair_id))) =
        read-write_ne D reliable offered_world bell offer_key _ apart
        ∙ read-write_self D reliable w offer_key _ in
      let some_bytes : 1 ≤ length (offer_data pair_id) = unfold offer_data codes in omega arith in
      ap (bell_looked D sha1 callee)
        (find_value-read rung_world bell _ (read-write_self D reliable offered_world bell _))
      ∙ ap (bell_heard D sha1 callee rung_world)
          (inline_bytes-inline 20 caller (omega (arith, k.size)))
      ∙ ap
          (λ id.
            offer_looked D sha1 id callee (D.find_value rung_world (pair_offer_key sha1 id callee)))
          (take_key caller k)
      ∙ ap (offer_looked D sha1 caller callee) (find_value-read rung_world offer_key _ offer)
      ∙ ap (answer_pair D sha1 caller callee rung_world)
          (inline_bytes-inline 1 (offer_data pair_id) some_bytes)
      ∙ answer_pair-silent

  -- Where the table loses nothing, and the key of the bell differs from those of the offer and the
  -- answer: if the callee looks at its bell while the caller waits, then this is its last round,
  -- and the caller ends without an error at its first look; the table then has the answer to the
  -- offer of the pair, and the bell is silent.
  pub run_caller-callee_round :
      (fuel : ℕ)
      → IsKey caller
      → bell ≢ offer_key
      → bell ≢ answer_key
      → ((callee_round D sha1 callee rung_world).1 ≡ true)
        × (run_caller D sha1
              (λ u. ((callee_round D sha1 callee u).0, false))
              (suc fuel)
              caller
              callee
              pair_id
              w
            ≡ some (silent_world, none))
        × (reliable.read silent_world answer_key
            ≡ some (inline_meta (some (answer_to_offer (offer_data pair_id)))))
        × (reliable.read silent_world bell ≡ some (inline_meta none))
  unfolding run_caller caller_stored caller_rung caller_wait caller_tick caller_looked caller_found
  run_caller-callee_round fuel k apart quiet =
      let pause : D.World → D.World × Bool = λ u. ((callee_round D sha1 callee u).0, false) in
      let wait = caller_wait D sha1 pause answer_key (suc fuel) in
      let again = caller_wait D sha1 pause answer_key fuel in
      let round = callee_round-rung k apart in
      let answer = answer_to_offer (offer_data pair_id) in
      let there : reliable.read silent_world answer_key ≡ some (inline_meta (some answer)) =
        read-write_ne D reliable pair_answered bell answer_key (inline_meta none) quiet
        ∙ read-write_self D reliable rung_world answer_key (inline_meta (some answer)) in
      let some_bytes : 1 ≤ length answer = unfold answer_to_offer codes in omega arith in
      (
        ap (λ r. r.1) round,
        ap (caller_stored D sha1 wait caller callee) (store_value-write w offer_key _)
            ∙ ap (caller_rung D sha1 wait) (store_value-write offered_world bell _)
            ∙ ap (λ r. caller_tick D sha1 again answer_key (r.0, false)) round
            ∙ ap (caller_looked D sha1 again) (find_value-read silent_world answer_key _ there)
            ∙ ap (caller_found D sha1 again silent_world) (inline_bytes-inline 1 answer some_bytes),
        there,
        read-write_self D reliable pair_answered bell (inline_meta none),
      )
