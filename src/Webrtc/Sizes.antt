-- ===== src/Webrtc/Sizes.antt =====
-- transport/webrtc/webrtc.go, `sendBlobChunked`: how many frames a blob has, and how large they are.
use webrtc_dht.Prelude.{
  ℕ, zero, suc, ◌+◌, ◌-◌, ◌*◌, ◌≤◌, ◌<◌, ◌≡◌, sym, ap, ◌∙◌, true, false, Option, none, some, List,
  [], ◌∷◌, ◌++◌, arith, ltb, length, drop, replicate, Bytes, Text, All, length-append, length-take,
  length-drop, length-replicate, Bool-cases, inl, inr,
}
use mathlib.Core.List.{append-nil, append_assoc}
use webrtc_dht.Types.{Error}
use webrtc_dht.Webrtc.{blob_chunk_size, frame_id, piece_end, frame_at, send_from, send_blob_chunked}

-- A channel that keeps what is sent.
abbrev pub log : List Bytes → Bytes → List Bytes × Option Error
log frames frame = (frames ++ frame ∷ [], none)

-- A frame has its 33 bytes and at least one of the blob, and fits.
abbrev pub IsFrame : Bytes → Type 0
IsFrame f = (33 < length f) × (length f ≤ 33 + blob_chunk_size)

module _ (req_id : Text) (blob : Bytes) where
  abbrev end_of : ℕ → ℕ
  end_of o = piece_end log req_id blob o

  end_of-bounds :
      (o : ℕ)
      → o < length blob
      → (o < end_of o) × (end_of o ≤ length blob) × (end_of o ≤ o + blob_chunk_size)
  end_of-bounds o h = (ground arith, ground arith, ground arith)

  length-frame_id : length (frame_id req_id) ≡ 32
  length-frame_id =
      length-take 32 (req_id ++ replicate 32 0)
      ∙ omega (arith, length-append req_id (replicate 32 0), length-replicate {A = ℕ} 32 0)

  length-frame_at :
      (o : ℕ) → o < length blob → length (frame_at log req_id blob o) ≡ 33 + (end_of o - o)
  length-frame_at o h =
      let (a, b, c) = end_of-bounds o h in
      length-append (frame_id req_id) _
      ∙ omega (
        arith,
        length-frame_id,
        length-take (end_of o - o) (drop o blob),
        length-drop o blob,
        a,
        b,
        c,
      )

  frame_at-IsFrame : (o : ℕ) → o < length blob → IsFrame (frame_at log req_id blob o)
  frame_at-IsFrame o h =
      let (a, b, c) = end_of-bounds o h in
      (omega (arith, length-frame_at o h, a, b, c), omega (arith, length-frame_at o h, a, b, c))

  -- The frames from an offset, their sizes and their number.
  abbrev IsSentFrom : ℕ → ℕ → List Bytes → Type 0
  IsSentFrom fuel o acc =
      (more : List Bytes) × (send_from log req_id blob fuel o acc ≡ some (acc ++ more, none))
      × All IsFrame more
      × (length blob ≤ o + length more * blob_chunk_size)
      × (o + length more * blob_chunk_size < length blob + blob_chunk_size)

  sent_none : (fuel o : ℕ) (acc : List Bytes) → length blob ≡ o → IsSentFrom (suc fuel) o acc
  unfolding send_from
  sent_none fuel o acc h =
      let stop : ltb o (length blob) ≡ false = ground arith in
      (
        [],
        rw stop (ap (λ fs. some (fs, none)) (sym (append-nil acc))),
        tt,
        omega arith,
        omega arith,
      )

  sent_more :
      (fuel o : ℕ) (acc : List Bytes)
      → o < length blob
      → IsSentFrom fuel (end_of o) (acc ++ frame_at log req_id blob o ∷ [])
      → IsSentFrom (suc fuel) o acc
  unfolding send_from
  sent_more fuel o acc h (more, sent, sizes, enough, few) =
      let f = frame_at log req_id blob o in
      let goes : ltb o (length blob) ≡ true = ground arith in
      (
        f ∷ more,
        rw goes (sent ∙ ap (λ fs. some (fs, none)) (append_assoc acc (f ∷ []) more)),
        (frame_at-IsFrame o h, sizes),
        ground (arith, enough),
        ground (arith, few, enough),
      )

  send_from-IsSentFrom :
      (fuel o : ℕ) (acc : List Bytes)
      → length blob < fuel + o
      → o ≤ length blob
      → IsSentFrom fuel o acc
  send_from-IsSentFrom zero o acc h l = absurd (omega arith)
  send_from-IsSentFrom (suc fuel) o acc h l = elim (Bool-cases (ltb o (length blob))) [
    | inl e ↦
        let inside : o < length blob = ground arith in
        let (a, b, c) = end_of-bounds o inside in
        sent_more fuel o acc inside (
          send_from-IsSentFrom fuel (end_of o) (acc ++ frame_at log req_id blob o ∷ [])
            (omega (arith, a)) b)
    | inr e ↦ sent_none fuel o acc (ground arith)
  ]

  -- With more fuel than the blob is long, and on a channel that takes every frame, the loop ends.
  -- Each frame has its 33 bytes, at least one of the blob, and no more than 262144 of it; and the
  -- frames are as few as can be: none for an empty blob.
  pub send_blob_chunked-IsFrame :
      (fuel : ℕ)
      → length blob < fuel
      → (frames : List Bytes) × (send_blob_chunked log req_id blob fuel [] ≡ some (frames, none))
        × All IsFrame frames
        × (length blob ≤ length frames * blob_chunk_size)
        × (length frames * blob_chunk_size < length blob + blob_chunk_size)
  unfolding send_blob_chunked
  send_blob_chunked-IsFrame fuel h =
      let (frames, sent, sizes, enough, few) =
        send_from-IsSentFrom fuel 0 [] (omega arith) (omega arith) in
      (frames, sent, sizes, omega (arith, enough), omega (arith, few))
