-- ===== src/Bench/Pairs.antt =====
-- cmd/bench_signaling/main.go, the agents: a pair of a caller and a callee that exchange an offer
-- and an answer. The hash table is given by its operations on a world, as for `DHTSignaler`, and a
-- `CentralSignaler` by what its `ListenOffers` and `SendOffer` do. The start of a callee is only
-- delayed, by its delay and at random; the time that a caller took is a number.
pub mod Relayed
use webrtc_dht.Prelude.{
  ℕ, zero, suc, Bool, true, false, not, ◌&&◌, Option, none, some, List, [], ◌++◌, ltb, ◌==◌,
  if◌then◌else◌, length, take, replicate, Text, Bytes, codes, decimal,
}
use webrtc_dht.Key.{Key, NodeId, key_from_bytes}
use webrtc_dht.Types.{Error, message, wrapped, error_text, Result, ok, err, ValueMeta}
use webrtc_dht.Signaling.{SignalPayload}
use webrtc_dht.Signaling.Dht.{Dht, inline_meta, body_bytes}

pub record RunPairRequest : Type 0 where
  pub pair_id : ℕ
  pub role : Text
  pub pair_callee_id_hex : Text
  pub pair_caller_id_hex : Text
  pub callback_url : Text
  pub start_delay_ms : ℕ

pub record PairResult : Type 0 where
  pub pair_id : ℕ
  pub signaling : Text
  pub latency_ns : ℕ
  pub error : Text

module _ (sha1 : Bytes → Bytes) where
  unfoldable pub pair_offer_key : NodeId → NodeId → Key
  pair_offer_key caller callee = key_from_bytes sha1 (codes "s2of:" ++ caller ++ callee)

  unfoldable pub pair_answer_key : NodeId → NodeId → Key
  pair_answer_key caller callee = key_from_bytes sha1 (codes "s2an:" ++ caller ++ callee)

  unfoldable pub pair_bell_key : NodeId → Key
  pair_bell_key callee = key_from_bytes sha1 (codes "s2bell:" ++ callee)

-- The bytes of an inline value that has enough of them.
unfoldable pub inline_bytes : ℕ → Option ValueMeta → Option Error → Option Bytes
inline_bytes least none e = none
inline_bytes least (some v) (some e) = none
inline_bytes least (some v) none =
    if v.inline && not (ltb (length (body_bytes v)) least) then some (body_bytes v) else none

unfoldable pub answer_to_offer : Bytes → Bytes
answer_to_offer offer = codes "answer-to-" ++ offer

unfoldable pub offer_data : ℕ → Text
offer_data pair_id = codes "offer-" ++ decimal pair_id

module _ (D : Dht) (sha1 : Bytes → Bytes) where
  open D use {World, find_value, store_value}

  -- The answer is stored and the bell silenced, whether that fails or not.
  answer_pair : NodeId → NodeId → World → Option Bytes → World × Bool
  answer_pair caller callee w none = (w, false)
  answer_pair caller callee w (some offer) =
      let answered =
        store_value w (pair_answer_key sha1 caller callee)
          (inline_meta (some (answer_to_offer offer))) in
      ((store_value answered.0 (pair_bell_key sha1 callee) (inline_meta none)).0, true)

  offer_looked : NodeId → NodeId → World × Option ValueMeta × Option Error → World × Bool
  unfolding answer_pair
  offer_looked caller callee (w, v, e) = answer_pair caller callee w (inline_bytes 1 v e)

  bell_heard : NodeId → World → Option Bytes → World × Bool
  unfolding offer_looked
  bell_heard callee w none = (w, false)
  bell_heard callee w (some bytes) =
      offer_looked (take 20 bytes) callee
        (find_value w (pair_offer_key sha1 (take 20 bytes) callee))

  bell_looked : NodeId → World × Option ValueMeta × Option Error → World × Bool
  unfolding bell_heard
  bell_looked callee (w, v, e) = bell_heard callee w (inline_bytes 20 v e)

  -- A round of the callee, at a tick; whether it was its last.
  unfoldable pub callee_round : NodeId → World → World × Bool
  unfolding bell_looked
  callee_round callee w = bell_looked callee (find_value w (pair_bell_key sha1 callee))

  callee_next : (World → Option World) → World × Bool → Option World
  callee_next again (w, true) = some w
  callee_next again (w, false) = again w

  callee_tick : (World → Option World) → NodeId → World × Bool → Option World
  unfolding callee_next
  callee_tick again callee (w, true) = some w
  callee_tick again callee (w, false) = callee_next again (callee_round callee w)

  -- `runCalleeSignaling` over the table. `pause` is the wait for a tick, in which others act, and
  -- tells whether the context has ended; `none` means that the fuel ran out.
  unfoldable pub run_callee : (World → World × Bool) → NodeId → ℕ → World → Option World
  unfolding callee_tick
  run_callee pause callee zero w = none
  run_callee pause callee (suc fuel) w = callee_tick (run_callee pause callee fuel) callee (pause w)

  caller_found :
      (World → Option (World × Option Error)) → World → Option Bytes → Option (World × Option Error)
  caller_found again w none = again w
  caller_found again w (some answer) = some (w, none)

  caller_looked :
      (World → Option (World × Option Error))
      → World × Option ValueMeta × Option Error
      → Option (World × Option Error)
  unfolding caller_found
  caller_looked again (w, v, e) = caller_found again w (inline_bytes 1 v e)

  caller_tick :
      (World → Option (World × Option Error)) → Key → World × Bool → Option (World × Option Error)
  unfolding caller_looked
  caller_tick again key (w, true) = some (w, some (message (codes "timeout waiting for answer")))
  caller_tick again key (w, false) = caller_looked again (find_value w key)

  unfoldable pub caller_wait :
      (World → World × Bool) → Key → ℕ → World → Option (World × Option Error)
  unfolding caller_tick
  caller_wait pause key zero w = none
  caller_wait pause key (suc fuel) w = caller_tick (caller_wait pause key fuel) key (pause w)

  caller_rung :
      (World → Option (World × Option Error)) → World × Option Error → Option (World × Option Error)
  caller_rung wait (w, some e) = some (w, some (wrapped (codes "doorbell: ") e))
  caller_rung wait (w, none) = wait w

  caller_stored :
      (World → Option (World × Option Error))
      → NodeId
      → NodeId
      → World × Option Error
      → Option (World × Option Error)
  unfolding caller_rung
  caller_stored wait caller callee (w, some e) = some (w, some (wrapped (codes "store offer: ") e))
  caller_stored wait caller callee (w, none) =
      caller_rung wait (store_value w (pair_bell_key sha1 callee) (inline_meta (some caller)))

  -- `runCallerSignaling` over the table.
  unfoldable pub run_caller :
      (World → World × Bool) → ℕ → NodeId → NodeId → ℕ → World → Option (World × Option Error)
  unfolding caller_stored
  run_caller pause fuel caller callee pair_id w =
      caller_stored (caller_wait pause (pair_answer_key sha1 caller callee) fuel) caller callee (
        store_value w (pair_offer_key sha1 caller callee) (inline_meta (some (offer_data pair_id))))

module _ {W : Type 0} (listen_offers : W → W × Option Error)
    (send_offer : W → NodeId → SignalPayload → W × Result Text) (close : W → W) where
  central_sent : W × Result Text → W × Option Error
  central_sent (w, err e) = (close w, some e)
  central_sent (w, ok answer) = (close w, none)

  central_listening : NodeId → NodeId → ℕ → W × Option Error → W × Option Error
  unfolding central_sent offer_data
  central_listening caller callee pair_id (w, some e) = (w, some e)
  central_listening caller callee pair_id (w, none) =
      central_sent (send_offer w callee (record { caller_id = caller; sdp = offer_data pair_id }))

  -- `runCallerSignaling` over a server.
  unfoldable pub run_central_caller : NodeId → NodeId → ℕ → W → W × Option Error
  unfolding central_listening
  run_central_caller caller callee pair_id w =
      central_listening caller callee pair_id (listen_offers w)

-- What a caller reports; a failure has the latency 0.
unfoldable pub pair_result : ℕ → Text → ℕ → Option Error → PairResult
pair_result pair_id signaling elapsed none = record {
  pair_id = pair_id;
  signaling = signaling;
  latency_ns = elapsed;
  error = [];
}
pair_result pair_id signaling elapsed (some e) = record {
  pair_id = pair_id;
  signaling = signaling;
  latency_ns = 0;
  error = error_text e;
}
