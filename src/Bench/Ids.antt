-- ===== src/Bench/Ids.antt =====
-- cmd/bench_signaling/main.go and cmd/bench_dht/main.go, `nodeIDFromHex` of both: the bytes that
-- `hex.DecodeString` has read up to an error, put at the start of an identifier.
use webrtc_dht.Prelude.{
  ℕ, ◌+◌, ◌*◌, ◌/◌, ◌%◌, ◌<◌, ◌≡◌, refl, ap, ◌∙◌, Option, none, some, [], ◌∷◌, ◌++◌, arith, take,
  replicate, All, Text, Bytes, take-append_left,
}
use webrtc_dht.Key.{IsByte, IsKey, NodeId, padded-IsKey}
use webrtc_dht.Key.Hex.{hex_encode, digit_value}
use webrtc_dht.Signaling.Ids.{digit_value-lt, digit_value-hex_digit}

byte_then : Option ℕ → Option ℕ → Bytes → Bytes
byte_then none low rest = []
byte_then (some high) none rest = []
byte_then (some high) (some low) rest = (high * 16 + low) ∷ rest

unfoldable pub decoded : Text → Bytes
unfolding byte_then digit_value
decoded [] = []
decoded (a ∷ []) = []
decoded (a ∷ b ∷ h) = byte_then (digit_value a) (digit_value b) (decoded h)

unfoldable pub id_from_hex : Text → NodeId
unfolding decoded
id_from_hex h = take 20 (decoded h ++ replicate 20 0)

byte_then-All :
    (high low : Option ℕ) (rest : Bytes)
    → ((d : ℕ) → high ≡ some d → d < 16)
    → ((d : ℕ) → low ≡ some d → d < 16)
    → All IsByte rest
    → All IsByte (byte_then high low rest)
unfolding byte_then
byte_then-All none low rest p q h = tt
byte_then-All (some high) none rest p q h = tt
byte_then-All (some high) (some low) rest p q h = (omega (arith, p high refl, q low refl), h)

decoded-All : (h : Text) → All IsByte (decoded h)
unfolding decoded
decoded-All [] = tt
decoded-All (a ∷ []) = tt
decoded-All (a ∷ b ∷ h) =
    byte_then-All (digit_value a) (digit_value b) (decoded h) (digit_value-lt a) (digit_value-lt b)
      (decoded-All h)

decoded-hex_encode : (bs : Bytes) → All IsByte bs → decoded (hex_encode bs) ≡ bs
unfolding decoded hex_encode byte_then
decoded-hex_encode [] h = refl
decoded-hex_encode (b ∷ bs) h =
    let high = digit_value-hex_digit (b / 16) (omega (arith, h.0)) in
    let low = digit_value-hex_digit (b % 16) (omega arith) in
    rw (high, low, decoded-hex_encode bs h.1)
      (ap (λ n. n ∷ bs) {x = b / 16 * 16 + b % 16} {y = b} (omega arith))

-- Whatever text is read, the result has the shape of an identifier; and the text that %x prints of
-- an identifier, which is how the programs pass it on, is read as that identifier.
pub id_from_hex-hex_encode :
    (h : Text) (id : NodeId) → IsKey id → IsKey (id_from_hex h) × (id_from_hex (hex_encode id) ≡ id)
unfolding id_from_hex
id_from_hex-hex_encode h id k = (
  padded-IsKey (decoded h) (decoded-All h),
  ap (λ bs. take 20 (bs ++ replicate 20 0)) (decoded-hex_encode id k.bytes)
      ∙ take-append_left id (replicate 20 0) 20 k.size,
)
