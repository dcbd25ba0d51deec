-- ===== src/Signaling/Ids.antt =====
-- transport/webrtc/signaling.go, `nodeIDFromHex`.
use webrtc_dht.Prelude.{
  ℕ, zero, suc, ◌/◌, ◌%◌, ◌<◌, ◌≡◌, refl, Option, none, some, [], ◌∷◌, arith, length, All, Text,
  Bytes, ap, Bool-cases, inl, inr, false,
}
use webrtc_dht.Key.{IsByte, IsKey, NodeId}
use webrtc_dht.Key.Hex.{hex_encode, hex_digit, digit_value}
use webrtc_dht.Signaling.{one_digit, two_digits, is_space, scan_byte, scan_bytes, node_id_from_hex}

length-scan_bytes : (n : ℕ) (h : Text) → length (scan_bytes n h) ≡ n
unfolding scan_bytes
length-scan_bytes zero h = refl
length-scan_bytes (suc n) [] = ap suc (length-scan_bytes n [])
length-scan_bytes (suc n) (a ∷ []) = ap suc (length-scan_bytes n [])
length-scan_bytes (suc n) (a ∷ b ∷ h) = ap suc (length-scan_bytes n h)

pub digit_value-lt : (c d : ℕ) → digit_value c ≡ some d → d < 16
unfolding digit_value
digit_value-lt c d e = ground arith

one_digit-IsByte : (h : Option ℕ) → ((d : ℕ) → h ≡ some d → d < 16) → IsByte (one_digit h)
unfolding one_digit
one_digit-IsByte none p = omega arith
one_digit-IsByte (some h) p = omega (arith, p h refl)

two_digits-IsByte :
    (h l : Option ℕ)
    → ((d : ℕ) → h ≡ some d → d < 16)
    → ((d : ℕ) → l ≡ some d → d < 16)
    → IsByte (two_digits h l)
unfolding two_digits
two_digits-IsByte none l p q = omega arith
two_digits-IsByte (some h) none p q = omega (arith, p h refl)
two_digits-IsByte (some h) (some l) p q = omega (arith, p h refl, q l refl)

scan_byte-IsByte : (a b : ℕ) → IsByte (scan_byte a b)
unfolding scan_byte
scan_byte-IsByte a b = elim (Bool-cases (is_space a)) [
  | inl e ↦ rw e (one_digit-IsByte (digit_value b) (digit_value-lt b))
  | inr e ↦
      rw e (two_digits-IsByte (digit_value a) (digit_value b) (digit_value-lt a) (digit_value-lt b))
]

scan_bytes-IsByte : (n : ℕ) (h : Text) → All IsByte (scan_bytes n h)
unfolding scan_bytes
scan_bytes-IsByte zero h = tt
scan_bytes-IsByte (suc n) [] = (omega arith, scan_bytes-IsByte n [])
scan_bytes-IsByte (suc n) (a ∷ []) = (omega arith, scan_bytes-IsByte n [])
scan_bytes-IsByte (suc n) (a ∷ b ∷ h) = (scan_byte-IsByte a b, scan_bytes-IsByte n h)

pub digit_value-hex_digit : (n : ℕ) → n < 16 → digit_value (hex_digit n) ≡ some n
unfolding digit_value hex_digit
digit_value-hex_digit n h = ground arith

is_space-hex_digit : (n : ℕ) → is_space (hex_digit n) ≡ false
unfolding is_space hex_digit
is_space-hex_digit n = ground arith

scan_byte-hex_digit : (b : ℕ) → b < 256 → scan_byte (hex_digit (b / 16)) (hex_digit (b % 16)) ≡ b
unfolding scan_byte two_digits
scan_byte-hex_digit b h =
    rw
      (
        is_space-hex_digit (b / 16),
        digit_value-hex_digit (b / 16) (omega arith),
        digit_value-hex_digit (b % 16) (omega arith),
      )
      (omega arith)

scan_bytes-hex_encode :
    (n : ℕ) (bs : Bytes) → length bs ≡ n → All IsByte bs → scan_bytes n (hex_encode bs) ≡ bs
unfolding scan_bytes hex_encode
scan_bytes-hex_encode zero [] e h = refl
scan_bytes-hex_encode zero (b ∷ bs) e h = absurd (omega arith)
scan_bytes-hex_encode (suc n) [] e h = absurd (omega arith)
scan_bytes-hex_encode (suc n) (b ∷ bs) e h =
    rw (scan_byte-hex_digit b h.0, scan_bytes-hex_encode n bs (omega arith) h.1)

-- Whatever text is read, the result has the shape of an identifier; and the text that `%x` prints
-- of an identifier is read as that identifier.
pub node_id_from_hex-hex_encode :
    (h : Text) (id : NodeId)
    → IsKey id
    → IsKey (node_id_from_hex h) × (node_id_from_hex (hex_encode id) ≡ id)
unfolding node_id_from_hex
node_id_from_hex-hex_encode h id k = (
  record { size = length-scan_bytes 20 h; bytes = scan_bytes-IsByte 20 h },
  scan_bytes-hex_encode 20 id k.size k.bytes,
)
