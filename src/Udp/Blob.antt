-- ===== src/Udp/Blob.antt =====
-- transport/udp/udp.go: blobs over TCP. What one side has sent is a list of bytes, after which the
-- connection ends; deadlines and TLS are in how many bytes come, and in the error of dialling.
pub mod Transfer
use webrtc_dht.Prelude.{
  ℕ, zero, suc, ◌+◌, ◌*◌, ◌/◌, ◌%◌, Option, none, some, List, [], ◌∷◌, ◌++◌, leb, ◌==◌,
  if◌then◌else◌, length, take, drop, Text, Bytes, codes, decimal,
}
use webrtc_dht.Types.{Error, not_found, message, wrapped, Result, ok, err}
use webrtc_dht.Node.{Node, on_fetch_blob}
use webrtc_dht.Storage.Files.{Formats}
use webrtc_dht.Transport.{Transport}

-- `binary.BigEndian`, for a number of so many bytes, before other bytes.
unfoldable pub put_bytes : ℕ → ℕ → Bytes → Bytes
put_bytes zero n rest = rest
put_bytes (suc width) n rest = put_bytes width (n / 256) (n % 256 ∷ rest)

unfoldable pub get_bytes : ℕ → Bytes → ℕ
get_bytes acc [] = acc
get_bytes acc (b ∷ bs) = get_bytes (acc * 256 + b) bs

abbrev pub put_uint64 : ℕ → Bytes
put_uint64 n = put_bytes 8 n []

abbrev pub get_uint64 : Bytes → ℕ
get_uint64 bs = get_bytes 0 bs

-- The error of `io.ReadFull` after so many bytes.
unfoldable pub ended : ℕ → Error
ended zero = message (codes "EOF")
ended (suc n) = message (codes "unexpected EOF")

-- The bytes that are read, and those that are left.
unfoldable pub read_full : ℕ → Bytes → Result (Bytes × Bytes)
read_full n s = if leb n (length s) then ok (take n s, drop n s) else err (ended (length s))

-- An error of the handler is as an empty blob.
abbrev pub blob_or_empty : Result Bytes → Bytes
blob_or_empty (err e) = []
blob_or_empty (ok bytes) = bytes

module _ (F : Formats) (T : Transport) where
  abbrev pub held_blob : Option Node → Text → Bytes
  held_blob none ref = []
  held_blob (some node) ref = blob_or_empty (on_fetch_blob F T node none ref)

  blob_answer : Option Node → Result (Bytes × Bytes) → Bytes
  blob_answer handler (err e) = []
  blob_answer handler (ok (ref, rest)) =
      let bytes = held_blob handler ref in put_uint64 (length bytes) ++ bytes

  -- What is written, for what comes in; the handler may not be set.
  unfoldable pub handle_blob_conn : Option Node → Bytes → Bytes
  unfolding blob_answer
  handle_blob_conn handler input = blob_answer handler (read_full 64 input)

blob_read : Result (Bytes × Bytes) → Result Bytes
blob_read (err e) = err (wrapped (codes "blob read: ") e)
blob_read (ok (bytes, rest)) = ok bytes

sized : ℕ → Bytes → Result Bytes
unfolding blob_read
sized zero s = err not_found
sized (suc n) s = blob_read (read_full (suc n) s)

size_read : Result (Bytes × Bytes) → Result Bytes
unfolding sized
size_read (err e) = err e
size_read (ok (size, s)) = sized (get_uint64 size) s

-- `addr` is the text of the target's address. Dialling it and writing to it may fail, and `reply`
-- is what comes back for what was written.
module _ (addr : Text) (dial write : Option Error) (reply : Bytes → Bytes) where
  asked : Text → Option Error → Option Error → Result Bytes
  unfolding size_read
  asked ref (some e) w = err (wrapped (codes "blob tcp dial " ++ addr ++ codes ": ") e)
  asked ref none (some e) = err e
  asked ref none none = size_read (read_full 8 (reply ref))

  unfoldable pub fetch_blob : Text → Result Bytes
  unfolding asked
  fetch_blob ref =
      if length ref == 64
      then asked ref dial write
      else err (
          message (codes "invalid blob ref length: " ++ decimal (length ref) ++ codes " (want 64)"))
