-- ===== src/Bench/Raw.antt =====
-- cmd/pion_raw_bench/main.go, `bench`: a number of bytes sent in pieces over a data channel, and
-- counted at the other end. That the sender waits while the buffer is full only delays it.
use webrtc_dht.Prelude.{
  ℕ, zero, suc, ◌+◌, ◌-◌, ◌/◌, ◌≤◌, ◌<◌, ◌≡◌, ap, sym, ◌∙◌, Bool, true, false, ◌||◌, Option, none,
  some, List, [], ◌∷◌, arith, ltb, leb, if◌then◌else◌, All, Bool-cases, inl, inr,
}

abbrev pub chunk_size : ℕ
chunk_size = 262144

abbrev pub total_bytes : ℕ
total_bytes = 33554432

-- The iterations for blobs of a size.
unfoldable pub iterations : ℕ → ℕ
iterations blob_sz = if ltb (total_bytes / blob_sz) 8 then 8 else total_bytes / blob_sz

abbrev pub send_end : ℕ → ℕ → ℕ
send_end blob_sz sent = if ltb blob_sz (sent + chunk_size) then blob_sz else sent + chunk_size

piece_before : ℕ → Option (List ℕ) → Option (List ℕ)
piece_before piece none = none
piece_before piece (some rest) = some (piece ∷ rest)

-- The lengths of the pieces that the loop sends when so much is sent; `none` means that the fuel
-- ran out.
unfoldable pub send_pieces : ℕ → ℕ → ℕ → Option (List ℕ)
unfolding piece_before
send_pieces blob_sz zero sent = none
send_pieces blob_sz (suc fuel) sent =
    let rest =
      piece_before (send_end blob_sz sent - sent)
        (send_pieces blob_sz fuel (send_end blob_sz sent)) in
    if ltb sent blob_sz then rest else some []

-- What was received, and whether the channel `done` holds the signal.
pub record Counted : Type 0 where
  pub received : ℕ
  pub done : Bool

unfoldable pub on_piece : ℕ → Counted → ℕ → Counted
on_piece blob_sz c piece = record {
  received = c.received + piece;
  done = leb blob_sz (c.received + piece) || c.done;
}

unfoldable pub on_pieces : ℕ → Counted → List ℕ → Counted
unfolding on_piece
on_pieces blob_sz c [] = c
on_pieces blob_sz c (piece ∷ pieces) = on_pieces blob_sz (on_piece blob_sz c piece) pieces

abbrev pub IsPiece : ℕ → Type 0
IsPiece piece = (0 < piece) × (piece ≤ chunk_size)

module _ (blob_sz : ℕ) where
  -- What is sent from where so much is sent and received.
  abbrev pub IsSent : ℕ → List ℕ → Type 0
  IsSent sent pieces =
      All IsPiece pieces
      × (on_pieces blob_sz (record { received = sent; done = leb blob_sz sent }) pieces
          ≡ record { received = blob_sz; done = true })

  piece-IsSent :
      (sent end : ℕ) (pieces : List ℕ)
      → sent < end
      → end ≤ sent + chunk_size
      → end ≤ blob_sz
      → IsSent end pieces
      → IsSent sent ((end - sent) ∷ pieces)
  unfolding on_pieces on_piece
  piece-IsSent sent end pieces less near h (sizes, received) =
      let now : sent + (end - sent) ≡ end = omega arith in
      let not_yet : leb blob_sz sent ≡ false = ground arith in
      let signal : (leb blob_sz end || leb blob_sz sent) ≡ leb blob_sz end = ground arith in
      ((((omega arith, omega arith), sizes)), rw (now, signal) received)

  send_pieces-IsSent :
      (fuel sent : ℕ)
      → sent ≤ blob_sz
      → blob_sz < fuel + sent
      → (pieces : List ℕ) × (send_pieces blob_sz fuel sent ≡ some pieces) × IsSent sent pieces
  unfolding send_pieces piece_before on_pieces
  send_pieces-IsSent zero sent h enough = absurd (omega arith)
  send_pieces-IsSent (suc fuel) sent h enough = elim (Bool-cases (ltb sent blob_sz)) [
    | inl e ↦
        let end = send_end blob_sz sent in
        let less : sent < end = ground arith in
        let near : end ≤ sent + chunk_size = ground arith in
        let inside : end ≤ blob_sz = ground arith in
        let (pieces, sends, is) = send_pieces-IsSent fuel end inside (omega arith) in
        (
          (end - sent) ∷ pieces,
          rw e (ap (piece_before (end - sent)) sends),
          piece-IsSent sent end pieces less near inside is,
        )
    | inr e ↦
        let all : sent ≡ blob_sz = ground arith in
        let enough_now : leb blob_sz sent ≡ true = ground arith in
        ([], rw e, (tt, λ i. record { received = all i; done = enough_now i }))
  ]

-- With more fuel than there are bytes the loop ends. Each piece that it sends has a byte at least
-- and no more than 262144, and if all of them come, then as much was received as was to be sent, and the
-- signal is given.
pub send_pieces-on_pieces :
    (blob_sz fuel : ℕ)
    → 0 < blob_sz
    → blob_sz < fuel
    → (pieces : List ℕ) × (send_pieces blob_sz fuel 0 ≡ some pieces)
      × All IsPiece pieces
      × (on_pieces blob_sz (record { received = 0; done = false }) pieces
          ≡ record { received = blob_sz; done = true })
send_pieces-on_pieces blob_sz fuel some_byte enough =
    let (pieces, sends, (sizes, counted)) =
      send_pieces-IsSent blob_sz fuel 0 (omega arith) (omega arith) in
    let none_yet : leb blob_sz 0 ≡ false = ground arith in
    (
      pieces,
      sends,
      sizes,
      ap (λ b. on_pieces blob_sz (record { received = 0; done = b }) pieces) (sym none_yet)
          ∙ counted,
    )
