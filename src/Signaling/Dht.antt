-- ===== src/Signaling/Dht.antt =====
-- transport/webrtc/signaling.go, `DHTSignaler`: offers and answers as values of the hash table.
-- The node is given by its operations on a world, SHA-1 and the JSON of an entry by functions.
pub mod Relay
pub mod Served
use webrtc_dht.Prelude.{
  ℕ, zero, suc, ◌+◌, ◌*◌, Bool, true, false, not, ◌&&◌, Option, none, some, List, [], ◌∷◌, ◌++◌,
  ite, Text, Bytes, codes, ltb, ◌==◌, length, if◌then◌else◌, replicate, ℤ, pos, negsuc,
}
use webrtc_dht.Key.{Key, NodeId, key_eq, key_from_bytes}
use webrtc_dht.Types.{Error, message, wrapped, Result, ok, err, NetworkNode, ValueMeta}
use webrtc_dht.Lookup.{is_visited}
use webrtc_dht.Signaling.{SignalPayload}

-- `FindValue` and `StoreValue` of a node.
pub record Dht : Type 1 where
  pub World : Type 0
  pub find_value : World → Key → World × Option ValueMeta × Option Error
  pub store_value : World → Key → ValueMeta → World × Option Error

pub record OfferEntry : Type 0 where
  pub payload : SignalPayload
  pub timestamp : ℤ

-- `ValueMeta{Inline: true, Data: data}`
unfoldable pub inline_meta : Option Bytes → ValueMeta
inline_meta body = record {
  inline = true;
  body = body;
  blob_ref = [];
  blob_node = replicate 20 0;
  size = pos 0;
  mime_type = [];
}

abbrev pub body_bytes : ValueMeta → Bytes
body_bytes v = elim v.body [ none ↦ [] | some bytes ↦ bytes ]

-- Whether `Unix(ts, 0)` is more than 30 seconds before `now`, which is in nanoseconds.
unfoldable pub is_stale : ℕ → ℤ → Bool
is_stale now (pos ts) = ltb ((ts + 30) * 1000000000) now
is_stale now (negsuc n) = ltb 30000000000 (now + suc n * 1000000000)

module _ (sha1 : Bytes → Bytes) where
  unfoldable pub dht_offer_key : NodeId → NodeId → Key
  dht_offer_key caller callee = key_from_bytes sha1 (codes "rtcof:" ++ caller ++ callee)

  unfoldable pub dht_answer_key : NodeId → NodeId → Key
  dht_answer_key caller callee = key_from_bytes sha1 (codes "rtcan:" ++ caller ++ callee)

  unfoldable pub dht_doorbell_key : NodeId → Key
  dht_doorbell_key callee = key_from_bytes sha1 (codes "rtcbell:" ++ callee)

module _ (D : Dht) (sha1 : Bytes → Bytes) (encode : OfferEntry → Bytes)
    (decode : Bytes → Result OfferEntry) where
  open D use {World, find_value, store_value}

  -- The caller that rings, if the value of the bell names one.
  unfoldable pub ringing : Option ValueMeta → Option Error → Option NodeId
  ringing none e = none
  ringing (some v) (some e) = none
  ringing (some v) none =
      if v.inline && length (body_bytes v) == 20 then some (body_bytes v) else none

  entry_in : Bytes → Result OfferEntry → ℕ → Option OfferEntry
  entry_in bytes (err e) now = none
  entry_in bytes (ok entry) now = if is_stale now entry.timestamp then none else some entry

  -- The offer that a value holds, if it can be read and is fresh.
  unfoldable pub fresh_offer : ℕ → Option ValueMeta → Option Error → Option OfferEntry
  unfolding entry_in
  fresh_offer now none e = none
  fresh_offer now (some v) (some e) = none
  fresh_offer now (some v) none =
      let entry = entry_in (body_bytes v) (decode (body_bytes v)) now in
      if v.inline then entry else none

  -- A call of the handler that a round of `pollOffers` starts.
  pub record Job : Type 0 where
    pub caller : NodeId
    pub entry : OfferEntry

  started : List NodeId → NodeId → World → Option OfferEntry → World × List NodeId × Option Job
  started processing caller w none = (w, processing, none)
  started processing caller w (some entry) =
      (w, caller ∷ processing, some (record { caller = caller; entry = entry }))

  found_offer :
      ℕ
      → List NodeId
      → NodeId
      → World × Option ValueMeta × Option Error
      → World × List NodeId × Option Job
  unfolding started
  found_offer now processing caller (w, v, e) = started processing caller w (fresh_offer now v e)

  -- The offer of the caller is looked for, unless it is being processed.
  poll_caller : ℕ → NodeId → List NodeId → World → Option NodeId → World × List NodeId × Option Job
  unfolding found_offer
  poll_caller now own processing w none = (w, processing, none)
  poll_caller now own processing w (some caller) =
      if is_visited processing caller
      then (w, processing, none)
      else found_offer now processing caller (find_value w (dht_offer_key sha1 caller own))

  polled :
      ℕ
      → NodeId
      → List NodeId
      → World × Option ValueMeta × Option Error
      → World × List NodeId × Option Job
  unfolding poll_caller
  polled now own processing (w, v, e) = poll_caller now own processing w (ringing v e)

  -- A round of the loop, at a tick; `processing` is the map of that name. A signaler without a
  -- node does nothing.
  unfoldable pub poll_round :
      Bool → ℕ → NodeId → List NodeId → World → World × List NodeId × Option Job
  unfolding polled
  poll_round attached now own processing w =
      if attached
      then polled now own processing (find_value w (dht_doorbell_key sha1 own))
      else (w, processing, none)

  -- `delete(processing, caller)`
  unfoldable pub unmark : NodeId → List NodeId → List NodeId
  unmark caller [] = []
  unmark caller (c ∷ cs) = let rest = unmark caller cs in ite (key_eq c caller) rest (c ∷ rest)

  silence : NodeId → World × Option Error → World
  silence own (w, e) = (store_value w (dht_doorbell_key sha1 own) (inline_meta none)).0

  store_answer : NodeId → NodeId → World × Result Text → World
  unfolding silence
  store_answer own caller (w, err e) = w
  store_answer own caller (w, ok answer) =
      silence own (store_value w (dht_answer_key sha1 caller own) (inline_meta (some answer)))

  -- The goroutine of a job: the answer is stored, and the bell is silenced.
  unfoldable pub run_job :
      (World → SignalPayload → World × Result Text)
      → NodeId
      → List NodeId
      → World
      → Job
      → World × List NodeId
  unfolding store_answer
  run_job handler own processing w job =
      (store_answer own job.caller (handler w job.entry.payload), unmark job.caller processing)

  -- The answer that a value holds.
  unfoldable pub answer_in : Option ValueMeta → Option Error → Option Text
  answer_in none e = none
  answer_in (some v) (some e) = none
  answer_in (some v) none =
      if v.inline && not (length (body_bytes v) == 0) then some (body_bytes v) else none

  looked :
      (World → Option (World × Result Text))
      → World × Option ValueMeta × Option Error
      → Option (World × Result Text)
  looked again (w, v, e) = elim (answer_in v e) [
    | some answer ↦ some (w, ok answer)
    | none ↦ again w
  ]

  awaited :
      (World → Option (World × Result Text))
      → Key
      → World × Option Error
      → Option (World × Result Text)
  unfolding looked
  awaited again key (w, some e) = some (w, err (wrapped (codes "signaling: ") e))
  awaited again key (w, none) = looked again (find_value w key)

  -- The loop that waits for an answer. `pause` is the wait before a look, in which others act; its
  -- error is that of the context. The first `none` means that the fuel ran out.
  unfoldable pub await_answer :
      (World → World × Option Error) → Key → ℕ → World → Option (World × Result Text)
  unfolding awaited
  await_answer pause key zero w = none
  await_answer pause key (suc fuel) w = awaited (await_answer pause key fuel) key (pause w)

  rung : World × Option Error → World × Option Error
  rung (w, some e) = (w, some (wrapped (codes "doorbell: ") e))
  rung (w, none) = (w, none)

  ring : NodeId → NodeId → World × Option Error → World × Option Error
  unfolding rung
  ring target caller (w, some e) = (w, some (wrapped (codes "store offer: ") e))
  ring target caller (w, none) =
      rung (store_value w (dht_doorbell_key sha1 target) (inline_meta (some caller)))

  -- `now` is the time in seconds.
  unfoldable pub store_offer : ℕ → NodeId → SignalPayload → World → World × Option Error
  unfolding ring
  store_offer now target payload w =
      let entry : OfferEntry = record { payload = payload; timestamp = pos now } in
      ring target payload.caller_id (
        store_value w (dht_offer_key sha1 payload.caller_id target)
          (inline_meta (some (encode entry))))

  offered :
      (World → World × Option Error) → ℕ → Key → World × Option Error → Option (World × Result Text)
  offered pause fuel key (w, some e) = some (w, err e)
  offered pause fuel key (w, none) = await_answer pause key fuel w

  unfoldable pub send_offer :
      (World → World × Option Error)
      → ℕ
      → Bool
      → ℕ
      → NodeId
      → SignalPayload
      → World
      → Option (World × Result Text)
  unfolding offered
  send_offer pause fuel attached now target payload w =
      let sent =
        offered pause fuel (dht_answer_key sha1 payload.caller_id target)
          (store_offer now target payload w) in
      if attached then sent else some (w, err (message (codes "DHTSignaler: node not attached")))
