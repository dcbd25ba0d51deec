-- ===== src/Bench/Blobs.antt =====
-- cmd/bench_transport/main.go: blobs of given sizes, asked for by their size over one data channel
-- and sent in frames over another. A frame has a byte for its kind and a piece of the blob. A
-- channel of Go that waits for a blob is a number. That a sender waits while the buffer of the data
-- channel is full only delays it, and the capacity that a hint announces is not modelled.
pub mod Arrival
use webrtc_dht.Prelude.{
  ℕ, zero, suc, ◌+◌, ◌-◌, ◌*◌, ◌/◌, ◌%◌, Option, none, some, List, [], ◌∷◌, ◌++◌, ltb, leb, ◌==◌,
  if◌then◌else◌, length, take, drop, Bytes, ℕ_discrete,
}
use webrtc_dht.Prelude.Assoc
use webrtc_dht.Types.{Error}

abbrev pub chunk_sz : ℕ
chunk_sz = 262144

-- `binary.LittleEndian`: a number in so many bytes, the least significant one first.
unfoldable pub put_little : ℕ → ℕ → Bytes
put_little zero n = []
put_little (suc k) n = n % 256 ∷ put_little k (n / 256)

unfoldable pub get_little : Bytes → ℕ
get_little [] = 0
get_little (b ∷ bs) = b + 256 * get_little bs

module _ {W : Type 0} (send : W → Bytes → W × Option Error) (blob : Bytes) where
  abbrev pub chunk_end : ℕ → ℕ
  chunk_end offset =
      if leb (length blob) (offset + chunk_sz) then length blob else offset + chunk_sz

  abbrev pub frame_kind : ℕ → ℕ
  frame_kind offset = if leb (length blob) (offset + chunk_sz) then 2 else 1

  abbrev pub chunk_frame : ℕ → Bytes
  chunk_frame offset = frame_kind offset ∷ take (chunk_end offset - offset) (drop offset blob)

  -- The loop from an offset; `none` means that the fuel ran out.
  unfoldable pub send_chunks : ℕ → ℕ → W → Option W
  send_chunks zero offset w = none
  send_chunks (suc fuel) offset w =
      let (w', failed) = send w (chunk_frame offset) in
      let rest = send_chunks fuel (chunk_end offset) w' in
      if ltb offset (length blob) then elim failed [ some e ↦ some w' | none ↦ rest ] else some w

  after_hint : ℕ → W × Option Error → Option W
  unfolding send_chunks
  after_hint fuel (w, some e) = some w
  after_hint fuel (w, none) = send_chunks fuel 0 w

  unfoldable pub send_blob : ℕ → W → Option W
  unfolding after_hint
  send_blob fuel w = after_hint fuel (send w (0 ∷ put_little 8 (length blob)))

-- `buf` is nil or what has come of a blob.
pub record BlobReceiver : Type 0 where
  pub buf : Bytes
  pub notif : Option ℕ

-- The last piece goes to the channel that waits, which is empty, and is forgotten then.
last_frame : BlobReceiver → Bytes → BlobReceiver × Option (ℕ × Bytes)
last_frame rx payload = (
  record { buf = []; notif = none },
  elim rx.notif [ none ↦ none | some ch ↦ some (ch, rx.buf ++ payload) ],
)

piece_of_kind : BlobReceiver → ℕ → Bytes → BlobReceiver × Option (ℕ × Bytes)
unfolding last_frame
piece_of_kind rx kind payload =
    if kind == 0
    then ((if ltb (length payload) 8 then rx else record rx { buf = [] }), none)
    else if kind == 1
    then (record rx { buf = rx.buf ++ payload }, none)
    else if kind == 2
    then last_frame rx payload
    else (rx, none)

-- The receiver after a message, and what it puts in a channel.
unfoldable pub on_message : BlobReceiver → Bytes → BlobReceiver × Option (ℕ × Bytes)
unfolding piece_of_kind
on_message rx [] = (rx, none)
on_message rx (kind ∷ payload) = piece_of_kind rx kind payload

-- The server's handler of the control channel: the blob that it will send.
unfoldable pub on_command : List (ℕ × Bytes) → Bytes → Option Bytes
unfolding get_little Assoc.lookup ℕ_discrete
on_command blob_store message =
    if ltb (length message) 8
    then none
    else Assoc.lookup ℕ_discrete (get_little (take 8 message)) blob_store

pub record Measured : Type 0 where
  pub size_bytes : ℕ
  pub iteration : ℕ
  pub duration_ns : ℕ
  pub transferred : ℕ

-- What an iteration of `runClient` adds to the results, from what its channel gave before the
-- timeout, if anything.
unfoldable pub iteration_results : ℕ → ℕ → ℕ → Option Bytes → List Measured → List Measured
iteration_results sz i elapsed none results = results
iteration_results sz i elapsed (some bytes) results =
    if length bytes == sz
    then results
      ++ record {
        size_bytes = sz;
        iteration = i;
        duration_ns = elapsed;
        transferred = length bytes;
      }
        ∷ []
    else results
