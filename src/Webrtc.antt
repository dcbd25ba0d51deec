-- ===== src/Webrtc.antt =====
-- transport/webrtc/webrtc.go: a blob as frames on a data channel, and the frames put together.
-- A frame has the 32 bytes of the request's identifier, a byte that is 1 in the last frame, and a
-- piece of the blob. A data channel delivers in order; that a sender waits while the channel's
-- buffer is full only delays it.
pub mod Frames
pub mod Sizes
pub mod Control
pub mod Peers
pub mod Listen
pub mod Calls
pub mod Search
use webrtc_dht.Prelude.{
  ℕ, zero, suc, ◌+◌, ◌-◌, Option, none, some, List, [], ◌∷◌, ◌++◌, ite, ltb, leb, ◌==◌,
  if◌then◌else◌, length, get_or, take, drop, replicate, Bytes, Text,
}
use webrtc_dht.Prelude.Assoc
use webrtc_dht.Key.{key_eq}
use webrtc_dht.Types.{Error}

-- The constant `blobChunkSize`.
abbrev pub blob_chunk_size : ℕ
blob_chunk_size = 262144

-- What has come of a blob, where nil is an empty list, and the channel `ch` of capacity one.
pub record PendingBlob : Type 0 where
  pub buf : Bytes
  pub ch : Option Bytes

-- The map `blobPending` of a connection.
abbrev pub BlobPending : Type 0
BlobPending = List (Text × PendingBlob)

-- `copy(frame[:32], reqID)`
abbrev pub frame_id : Text → Bytes
frame_id req_id = take 32 (req_id ++ replicate 32 0)

-- A send that a full channel turns away is dropped.
abbrev pub offer : Option Bytes → Bytes → Option Bytes
offer none full = some full
offer (some waiting) full = some waiting

-- The pending blob after a piece.
unfoldable pub receive_piece : PendingBlob → ℕ → Bytes → PendingBlob
receive_piece bp is_last chunk =
    let full = bp.buf ++ chunk in
    if is_last == 1
    then record { buf = []; ch = if length full == 0 then bp.ch else offer bp.ch full }
    else record { buf = full; ch = bp.ch }

unfoldable pub receive_at : BlobPending → Text → ℕ → Bytes → Option PendingBlob → BlobPending
receive_at pending req_id is_last chunk none = pending
receive_at pending req_id is_last chunk (some bp) =
    Assoc.assign key_eq req_id (receive_piece bp is_last chunk) pending

unfoldable pub on_blob_msg : BlobPending → Bytes → BlobPending
on_blob_msg pending frame =
    let req_id = take 32 frame in
    let next =
      receive_at pending req_id (get_or frame 32 0) (drop 33 frame)
        (Assoc.lookup key_eq req_id pending) in
    if ltb (length frame) 33 then pending else next

module _ {W : Type 0} (send : W → Bytes → W × Option Error) (req_id : Text) (blob : Bytes) where
  -- The end of the piece at an offset, and the mark of the last one.
  abbrev pub piece_end : ℕ → ℕ
  piece_end offset =
      if leb (length blob) (offset + blob_chunk_size) then length blob else offset + blob_chunk_size

  abbrev pub last_mark : ℕ → ℕ
  last_mark offset = if leb (length blob) (offset + blob_chunk_size) then 1 else 0

  abbrev pub frame_at : ℕ → Bytes
  frame_at offset =
      frame_id req_id ++ last_mark offset ∷ take (piece_end offset - offset) (drop offset blob)

  -- The loop from an offset; the first `none` means that the fuel ran out.
  unfoldable pub send_from : ℕ → ℕ → W → Option (W × Option Error)
  send_from zero offset w = none
  send_from (suc fuel) offset w =
      let (w', failed) = send w (frame_at offset) in
      let rest = send_from fuel (piece_end offset) w' in
      if ltb offset (length blob)
      then elim failed [ some e ↦ some (w', some e) | none ↦ rest ]
      else some (w, none)

  unfoldable pub send_blob_chunked : ℕ → W → Option (W × Option Error)
  send_blob_chunked fuel w = send_from fuel 0 w
