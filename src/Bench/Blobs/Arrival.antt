-- ===== src/Bench/Blobs/Arrival.antt =====
-- cmd/bench_transport/main.go: what is asked for by its size arrives, and is counted.
use webrtc_dht.Prelude.{
  ℕ, zero, suc, ◌+◌, ◌-◌, ◌/◌, ◌^◌, ◌≤◌, ◌<◌, ◌≡◌, refl, ap, ◌∙◌, true, false, Option, none, some,
  List, [], ◌∷◌, ◌++◌, arith, ltb, leb, ◌==◌, length, take, Bytes, take_more, take_all, Bool-cases,
  inl, inr, ℕ_discrete, subst,
}
use webrtc_dht.Prelude.Assoc
use webrtc_dht.Types.{Error}
use webrtc_dht.Bench.Blobs.{
  chunk_sz, put_little, get_little, chunk_end, chunk_frame, send_chunks, after_hint, send_blob,
  BlobReceiver, last_frame, piece_of_kind, on_message, on_command, Measured, iteration_results,
}

get_little-put_little : (k n : ℕ) → n < 256 ^ k → get_little (put_little k n) ≡ n
unfolding get_little put_little
get_little-put_little zero n h = omega arith
get_little-put_little (suc k) n h = omega (arith, get_little-put_little k (n / 256) (omega arith))

length-put_little : (k n : ℕ) → length (put_little k n) ≡ k
unfolding put_little
length-put_little zero n = refl
length-put_little (suc k) n = ap suc (length-put_little k (n / 256))

-- A receiver with the channels that it has filled.
abbrev pub Receiving : Type 0
Receiving = BlobReceiver × List (ℕ × Bytes)

abbrev noted : Option (ℕ × Bytes) → List (ℕ × Bytes) → List (ℕ × Bytes)
noted none filled = filled
noted (some put) filled = put ∷ filled

-- An ordered channel that loses nothing: a frame that is sent is received.
abbrev pub arrive : Receiving → Bytes → Receiving × Option Error
arrive (rx, filled) frame =
    ((((on_message rx frame).0, noted (on_message rx frame).1 filled), none))

module _ (blob : Bytes) (ch : ℕ) (filled : List (ℕ × Bytes)) where
  abbrev now : ℕ → Receiving
  now o = (record { buf = take o blob; notif = some ch }, filled)

  abbrev whole : Receiving
  whole = (record { buf = []; notif = none }, (ch, blob) ∷ filled)

  send_chunks-end :
      (fuel : ℕ) (r : Receiving) → 0 < fuel → send_chunks arrive blob fuel (length blob) r ≡ some r
  unfolding send_chunks
  send_chunks-end zero r h = absurd (omega arith)
  send_chunks-end (suc fuel) r h =
      let stop : ltb (length blob) (length blob) ≡ false = ground arith in rw stop

  send_chunks-next :
      (fuel o end : ℕ) (r r' : Receiving)
      → o < length blob
      → chunk_end arrive blob o ≡ end
      → (arrive r (chunk_frame arrive blob o)).0 ≡ r'
      → send_chunks arrive blob (suc fuel) o r ≡ send_chunks arrive blob fuel end r'
  unfolding send_chunks
  send_chunks-next fuel o end r r' h ends arrives =
      let go : ltb o (length blob) ≡ true = ground arith in
      rw go (λ i. send_chunks arrive blob fuel (ends i) (arrives i))

  arrive-inner :
      (o : ℕ)
      → o + chunk_sz < length blob
      → (arrive (now o) (chunk_frame arrive blob o)).0 ≡ now (o + chunk_sz)
  unfolding on_message piece_of_kind
  arrive-inner o h =
      let is : leb (length blob) (o + chunk_sz) ≡ false = ground arith in
      rw is (
        ap (λ b. (record { buf = b; notif = some ch }, filled))
          (take_more o (o + chunk_sz - o) (o + chunk_sz) blob (omega arith)))

  arrive-last :
      (o : ℕ)
      → o < length blob
      → length blob ≤ o + chunk_sz
      → (arrive (now o) (chunk_frame arrive blob o)).0 ≡ whole
  unfolding on_message piece_of_kind last_frame
  arrive-last o h last =
      let is : leb (length blob) (o + chunk_sz) ≡ true = ground arith in
      rw is (
        ap (λ b. (record { buf = []; notif = none }, (ch, b) ∷ filled))
          (take_more o (length blob - o) (length blob) blob (omega arith) ∙ take_all blob))

  send_chunks-arrive :
      (fuel o : ℕ)
      → length blob < fuel + o
      → o < length blob
      → send_chunks arrive blob fuel o (now o) ≡ some whole
  send_chunks-arrive zero o enough h = absurd (omega arith)
  send_chunks-arrive (suc fuel) o enough h = elim (Bool-cases (leb (length blob) (o + chunk_sz))) [
    | inl e ↦
        send_chunks-next fuel o (length blob) (now o) whole h (rw e)
          (arrive-last o h (ground arith))
        ∙ send_chunks-end fuel whole (omega arith)
    | inr e ↦
        let inner : o + chunk_sz < length blob = ground arith in
        send_chunks-next fuel o (o + chunk_sz) (now o) (now (o + chunk_sz)) h (rw e)
          (arrive-inner o inner)
        ∙ send_chunks-arrive fuel (o + chunk_sz) (omega arith) inner
  ]

  -- The hint empties the buffer, whatever is in it.
  send_blob-arrive :
      (fuel : ℕ) (buf : Bytes)
      → length blob < fuel
      → 0 < length blob
      → send_blob arrive blob fuel (record { buf = buf; notif = some ch }, filled) ≡ some whole
  unfolding send_blob after_hint on_message piece_of_kind
  send_blob-arrive fuel buf enough some_bytes =
      let long : ltb (length (put_little 8 (length blob))) 8 ≡ false =
        ground (arith, length-put_little 8 (length blob)) in
      rw long (send_chunks-arrive fuel 0 (omega arith) some_bytes)

on_command-put_little :
    (blob_store : List (ℕ × Bytes)) (sz : ℕ)
    → sz < 2 ^ 64
    → on_command blob_store (put_little 8 sz) ≡ Assoc.lookup ℕ_discrete sz blob_store
unfolding on_command
on_command-put_little blob_store sz h =
    let eight = length-put_little 8 sz in
    let long : ltb (length (put_little 8 sz)) 8 ≡ false = ground (arith, eight) in
    let all : take 8 (put_little 8 sz) ≡ put_little 8 sz =
      subst (λ n. take n (put_little 8 sz) ≡ put_little 8 sz) eight (take_all (put_little 8 sz)) in
    rw (long, all, get_little-put_little 8 sz (omega arith))

-- An iteration of the client, for a size from 1 to 2 ^ 64 - 1 under which the server has a blob of
-- that size, over channels that deliver every frame in order: the server reads the size that was
-- sent, with more fuel than its length the loop that sends the blob ends, the channel of the
-- iteration has the whole blob, whatever was in the buffer before, and the iteration adds one
-- result, in which all of it was transferred.
pub send_blob-iteration :
    (blob_store : List (ℕ × Bytes)) (sz i elapsed fuel : ℕ) (blob buf : Bytes)
    (filled : List (ℕ × Bytes)) (results : List Measured)
    → 0 < sz
    → sz < 2 ^ 64
    → sz < fuel
    → Assoc.lookup ℕ_discrete sz blob_store ≡ some blob
    → length blob ≡ sz
    → (on_command blob_store (put_little 8 sz) ≡ some blob)
      × (send_blob arrive blob fuel (record { buf = buf; notif = some i }, filled)
          ≡ some (record { buf = []; notif = none }, (i, blob) ∷ filled))
      × (iteration_results sz i elapsed (some blob) results
          ≡ results
            ++ record { size_bytes = sz; iteration = i; duration_ns = elapsed; transferred = sz }
              ∷ [])
unfolding iteration_results
send_blob-iteration blob_store sz i elapsed fuel blob buf filled results pos small enough found
      size =
    let same : (length blob == sz) ≡ true = ground (arith, size) in
    (
      on_command-put_little blob_store sz small ∙ found,
      send_blob-arrive blob i filled fuel buf (omega (arith, size)) (omega (arith, size)),
      rw (same, size),
    )
