-- ===== src/Webrtc/Frames.antt =====
-- transport/webrtc/webrtc.go: a blob that is sent in frames is received whole.
use webrtc_dht.Prelude.{
  ℕ, zero, suc, ◌+◌, ◌-◌, ◌≤◌, ◌<◌, ◌≡◌, refl, ap, ◌∙◌, ◌≢◌, true, false, Option, none, some, [],
  ◌∷◌, ◌++◌, if_pos, if_neg, arith, ltb, leb, ◌==◌, length, get_or, take, drop, replicate, Bytes,
  Text, length-append, take-append_left, take_more, take_all, Bool-cases, inl, inr,
}
use webrtc_dht.Prelude.Assoc
use webrtc_dht.Key.{key_eq}
use webrtc_dht.Types.{Error}
use webrtc_dht.Webrtc.{
  blob_chunk_size, PendingBlob, BlobPending, frame_id, receive_piece, receive_at, on_blob_msg,
  piece_end, last_mark, frame_at, send_from, send_blob_chunked,
}

-- An ordered channel that loses nothing: a frame that is sent is received.
abbrev pub deliver : BlobPending → Bytes → BlobPending × Option Error
deliver pending frame = (on_blob_msg pending frame, none)

frame_id_lem : (req_id : Text) → length req_id ≡ 32 → frame_id req_id ≡ req_id
frame_id_lem req_id h = take-append_left req_id (replicate 32 0) 32 h

get_or_append :
    (xs : Bytes) (m : ℕ) (ys : Bytes) (n : ℕ) → length xs ≡ n → get_or (xs ++ m ∷ ys) n 0 ≡ m
get_or_append [] m ys zero h = refl
get_or_append [] m ys (suc n) h = absurd (omega arith)
get_or_append (x ∷ xs) m ys zero h = absurd (omega arith)
get_or_append (x ∷ xs) m ys (suc n) h = get_or_append xs m ys n (omega arith)

drop_append_one :
    (xs : Bytes) (m : ℕ) (ys : Bytes) (n : ℕ) → length xs ≡ n → drop (suc n) (xs ++ m ∷ ys) ≡ ys
drop_append_one [] m ys zero h = refl
drop_append_one [] m ys (suc n) h = absurd (omega arith)
drop_append_one (x ∷ xs) m ys zero h = absurd (omega arith)
drop_append_one (x ∷ xs) m ys (suc n) h = drop_append_one xs m ys n (omega arith)

-- A frame is taken apart as it was put together.
on_blob_msg-frame :
    (pending : BlobPending) (req_id : Text) (mark : ℕ) (chunk : Bytes)
    → length req_id ≡ 32
    → on_blob_msg pending (frame_id req_id ++ mark ∷ chunk)
      ≡ receive_at pending req_id mark chunk (Assoc.lookup key_eq req_id pending)
unfolding on_blob_msg
on_blob_msg-frame pending req_id mark chunk h =
    let long : ltb (length (req_id ++ mark ∷ chunk)) 33 ≡ false =
      ground (arith, length-append req_id (mark ∷ chunk), h) in
    rw (
      frame_id_lem req_id h,
      long,
      take-append_left req_id (mark ∷ chunk) 32 h,
      get_or_append req_id mark chunk 32 h,
      drop_append_one req_id mark chunk 32 h,
    )

module _ (req_id : Text) (blob : Bytes) (size : length req_id ≡ 32) where
  -- After the frame at an offset: the pending blob has one piece more.
  delivered :
      (o : ℕ) (pending : BlobPending) (bp : PendingBlob)
      → Assoc.lookup key_eq req_id pending ≡ some bp
      → on_blob_msg pending (frame_at deliver req_id blob o)
        ≡ Assoc.assign key_eq req_id
            (receive_piece bp
              (last_mark deliver req_id blob o)
              (take (piece_end deliver req_id blob o - o) (drop o blob)))
            pending
  unfolding receive_at
  delivered o pending bp found = on_blob_msg-frame pending req_id _ _ size ∙ rw (found, receive_at)

  send_from-end :
      (fuel : ℕ) (pending : BlobPending)
      → 0 < fuel
      → send_from deliver req_id blob fuel (length blob) pending ≡ some (pending, none)
  unfolding send_from
  send_from-end zero pending h = absurd (omega arith)
  send_from-end (suc fuel) pending h =
      let stop : ltb (length blob) (length blob) ≡ false = ground arith in rw stop

  last_piece :
      (o : ℕ)
      → o < length blob
      → length blob ≤ o + blob_chunk_size
      → receive_piece
          (record { buf = take o blob; ch = none })
          (last_mark deliver req_id blob o)
          (take (piece_end deliver req_id blob o - o) (drop o blob))
        ≡ record { buf = []; ch = some blob }
  unfolding receive_piece
  last_piece o h last =
      let is : leb (length blob) (o + blob_chunk_size) ≡ true = ground arith in
      let whole = take_more o (length blob - o) (length blob) blob (omega arith) ∙ take_all blob in
      let some_bytes : (length blob == 0) ≡ false = ground arith in rw (is, whole, some_bytes)

  inner_piece :
      (o : ℕ)
      → o + blob_chunk_size < length blob
      → receive_piece
          (record { buf = take o blob; ch = none })
          (last_mark deliver req_id blob o)
          (take (piece_end deliver req_id blob o - o) (drop o blob))
        ≡ record { buf = take (o + blob_chunk_size) blob; ch = none }
  unfolding receive_piece
  inner_piece o h =
      let is : leb (length blob) (o + blob_chunk_size) ≡ false = ground arith in
      rw is (
        ap (λ b. record { buf = b; ch = none })
          (take_more o (o + blob_chunk_size - o) (o + blob_chunk_size) blob (omega arith)))

  -- What the receiver has in the end.
  abbrev pub IsReceived : BlobPending → BlobPending → Type 0
  IsReceived pending pending' =
      (Assoc.lookup key_eq req_id pending' ≡ some (record { buf = []; ch = some blob }))
      × ((j : Text) → req_id ≢ j → Assoc.lookup key_eq j pending' ≡ Assoc.lookup key_eq j pending)

  send_from-next :
      (fuel o : ℕ) (pending : BlobPending)
      → o < length blob
      → send_from deliver req_id blob (suc fuel) o pending
        ≡ send_from deliver req_id blob fuel
            (piece_end deliver req_id blob o)
            (on_blob_msg pending (frame_at deliver req_id blob o))
  unfolding send_from
  send_from-next fuel o pending h = let go : ltb o (length blob) ≡ true = ground arith in rw go

  -- The pending blob under the identifier is replaced, and no other.
  replaced :
      (bp : PendingBlob) (pending : BlobPending)
      → (Assoc.lookup key_eq req_id (Assoc.assign key_eq req_id bp pending) ≡ some bp)
        × ((j : Text)
            → req_id ≢ j
            → Assoc.lookup key_eq j (Assoc.assign key_eq req_id bp pending)
              ≡ Assoc.lookup key_eq j pending)
  replaced bp pending = (
    Assoc.lookup-assign key_eq req_id req_id bp pending ∙ if_pos (key_eq req_id req_id) refl _ _,
    λ j ne. Assoc.lookup-assign key_eq req_id j bp pending ∙ if_neg (key_eq req_id j) ne _ _,
  )

  module _ (fuel o : ℕ) (pending : BlobPending) (h : o < length blob)
      (found : Assoc.lookup key_eq req_id pending
        ≡ some (record { buf = take o blob; ch = none })) where
    send_from-last :
        length blob ≤ o + blob_chunk_size
        → 0 < fuel
        → let kept = Assoc.assign key_eq req_id (record { buf = []; ch = some blob }) pending in
          send_from deliver req_id blob (suc fuel) o pending ≡ some (kept, none)
    send_from-last last more =
        let e : leb (length blob) (o + blob_chunk_size) ≡ true = ground arith in
        let ends : piece_end deliver req_id blob o ≡ length blob = rw e in
        send_from-next fuel o pending h
        ∙ rw (delivered o pending _ found, last_piece o h last, ends) (send_from-end fuel _ more)

    send_from-inner :
        o + blob_chunk_size < length blob
        → send_from deliver req_id blob (suc fuel) o pending
          ≡ send_from deliver req_id blob fuel (o + blob_chunk_size) (
              Assoc.assign key_eq req_id
                (record { buf = take (o + blob_chunk_size) blob; ch = none })
                pending)
    send_from-inner inner =
        let e : leb (length blob) (o + blob_chunk_size) ≡ false = ground arith in
        let goes : piece_end deliver req_id blob o ≡ o + blob_chunk_size = rw e in
        send_from-next fuel o pending h
        ∙ rw (delivered o pending _ found, inner_piece o inner, goes)

  send_from-IsReceived :
      (fuel o : ℕ) (pending : BlobPending)
      → length blob < fuel + o
      → o < length blob
      → Assoc.lookup key_eq req_id pending ≡ some (record { buf = take o blob; ch = none })
      → (pending' : BlobPending) × (send_from deliver req_id blob fuel o pending
          ≡ some (pending', none))
        × IsReceived pending pending'
  send_from-IsReceived zero o pending enough h found = absurd (omega arith)
  send_from-IsReceived (suc fuel) o pending enough h found =
      elim (Bool-cases (leb (length blob) (o + blob_chunk_size))) [
        | inl e ↦ (
          _,
          send_from-last fuel o pending h found (ground arith) (omega arith),
          replaced _ pending,
        )
        | inr e ↦
            let inner : o + blob_chunk_size < length blob = ground arith in
            let (same, others) = replaced _ pending in
            let (p, sent, is) =
              send_from-IsReceived fuel (o + blob_chunk_size) _ (omega arith) inner same in
            (
              p,
              send_from-inner fuel o pending h found inner ∙ sent,
              (is.0, λ j ne. is.1 j ne ∙ others j ne),
            )
      ]

  -- A blob that is not empty, sent to a peer that waits for it over a channel that delivers every
  -- frame in order, arrives whole: with more fuel than its length the loop ends without an error,
  -- the blob is in the waiting channel, the buffer is empty again, and no other pending blob is
  -- touched.
  pub send_blob_chunked-on_blob_msg :
      (fuel : ℕ) (pending : BlobPending)
      → length blob < fuel
      → blob ≢ []
      → Assoc.lookup key_eq req_id pending ≡ some (record { buf = []; ch = none })
      → (pending' : BlobPending) × (send_blob_chunked deliver req_id blob fuel pending
          ≡ some (pending', none))
        × IsReceived pending pending'
  unfolding send_blob_chunked
  send_blob_chunked-on_blob_msg fuel pending enough some_bytes found =
      send_from-IsReceived fuel 0 pending (omega arith) (positive blob some_bytes) found
    where
      positive : (b : Bytes) → b ≢ [] → 0 < length b
      positive [] h = absurd (h refl)
      positive (x ∷ xs) h = omega arith
