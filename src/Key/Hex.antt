-- ===== src/Key/Hex.antt =====
-- dht/key.go, `MarshalJSON` and `UnmarshalJSON`, with encoding/hex.
-- A JSON text is given by the value that it spells: null, a string, or any other value.
use webrtc_dht.Prelude.{
  ℕ, ◌+◌, ◌*◌, ◌/◌, ◌%◌, ◌-◌, ◌<◌, ◌≡◌, refl, ◌&&◌, Option, none, some, [], ◌∷◌, ◌++◌, arith,
  length, All, ltb, leb, if◌then◌else◌, Text, Bytes, codes, decimal, ◌==◌, Bool-cases, ==_iff, inl,
  inr, subst, ap, ◌≢◌,
}
use webrtc_dht.Key.Value.{Key, IsKey, IsByte}
use webrtc_dht.Types.{Error, message, Result, ok, err, ◌>>=◌, ok-injective, first_step}

pub data Json : Type 0 where
  null : Json
  text : Text → Json
  other : Json

unfoldable pub hex_digit : ℕ → ℕ
hex_digit n = if ltb n 10 then 48 + n else 87 + n

-- `hex.EncodeToString` and `%x`
unfoldable pub hex_encode : Bytes → Text
unfolding hex_digit
hex_encode [] = []
hex_encode (b ∷ bs) = hex_digit (b / 16) ∷ hex_digit (b % 16) ∷ hex_encode bs

-- The value of a digit, in either case.
unfoldable pub digit_value : ℕ → Option ℕ
digit_value c =
    if leb b'0' c && leb c b'9'
    then some (c - b'0')
    else if leb b'a' c && leb c b'f'
    then some (c - 87)
    else if leb b'A' c && leb c b'F'
    then some (c - 55)
    else none

invalid_byte : Error
invalid_byte = message (codes "encoding/hex: invalid byte")

odd_length : Error
odd_length = message (codes "encoding/hex: odd length hex string")

digit : ℕ → Result ℕ
unfolding digit_value
digit c = elim (digit_value c) [ none ↦ err invalid_byte | some d ↦ ok d ]

-- `hex.DecodeString`: the first bad byte is reported before an odd length.
unfoldable pub hex_decode : Text → Result Bytes
unfolding digit invalid_byte odd_length
hex_decode [] = ok []
hex_decode (a ∷ []) = do _ ← digit a; err odd_length
hex_decode (a ∷ b ∷ cs) = do h ← digit a; l ← digit b; bs ← hex_decode cs; ok ((h * 16 + l) ∷ bs)

pub marshal_json : Key → Json
marshal_json k = text (hex_encode k)

wrong_size : ℕ → Error
wrong_size n = message (codes "dhtkey: invalid length " ++ decimal n ++ codes ", want 20")

-- `json.Unmarshal(data, &s)`: null leaves the string empty.
json_string : Json → Result Text
json_string null = ok []
json_string (text t) = ok t
json_string other =
    err (message (codes "json: cannot unmarshal value into Go value of type string"))

-- The key that the receiver holds after a success; on an error it keeps its bytes.
pub unmarshal_json : Json → Result Key
unfolding json_string wrong_size
unmarshal_json j = do
  s ← json_string j
  b ← hex_decode s
  if length b == 20 then ok b else err (wrong_size (length b))

digit-hex_digit : (n : ℕ) → n < 16 → digit (hex_digit n) ≡ ok n
unfolding digit hex_digit
digit-hex_digit n h = ground arith

pub hex_decode-hex_encode : (bs : Bytes) → All IsByte bs → hex_decode (hex_encode bs) ≡ ok bs
unfolding hex_encode hex_decode
hex_decode-hex_encode [] h = refl
hex_decode-hex_encode (b ∷ bs) h =
    rw
      (
        digit-hex_digit (b / 16) (omega (arith, h.0)),
        digit-hex_digit (b % 16) (omega arith),
        hex_decode-hex_encode bs h.1,
      )
      (ap (λ (x : ℕ). ok (x ∷ bs)) (omega arith))

digit-lt : (c d : ℕ) → digit c ≡ ok d → d < 16
unfolding digit
digit-lt c d e = ground arith

-- What a decoder accepts are bytes.
hex_decode-IsByte : (t : Text) (bs : Bytes) → hex_decode t ≡ ok bs → All IsByte bs
unfolding hex_decode
hex_decode-IsByte [] bs e = subst (All IsByte) (ok-injective e) tt
hex_decode-IsByte (a ∷ []) bs e = let (d, p, q) = first_step (digit a) _ e in cc
hex_decode-IsByte (a ∷ b ∷ cs) bs e =
    let (h, p, e₁) = first_step (digit a) _ e in
    let (l, q, e₂) = first_step (digit b) _ e₁ in
    let (r, t, e₃) = first_step (hex_decode cs) _ e₂ in
    subst (All IsByte) (ok-injective e₃)
      (omega (arith, digit-lt a h p, digit-lt b l q), hex_decode-IsByte cs r t)

-- A key survives the round trip through JSON.
pub unmarshal_json-marshal_json : (k : Key) → IsKey k → unmarshal_json (marshal_json k) ≡ ok k
unfolding unmarshal_json marshal_json
unmarshal_json-marshal_json k h = rw (hex_decode-hex_encode k h.bytes) (ground (arith, h.size))

-- Whatever is read, the result has the shape of a key.
pub unmarshal_json-IsKey : (j : Json) (k : Key) → unmarshal_json j ≡ ok k → IsKey k
unfolding unmarshal_json
unmarshal_json-IsKey j k e =
    let (s, p, e₁) = first_step (json_string j) _ e in
    let (b, q, e₂) = first_step (hex_decode s) _ e₁ in
    elim (Bool-cases (length b == 20)) [
      | inl right ↦
          let same : b ≡ k = ground arith in
          subst IsKey same (record { size = (==_iff _ _).0 right; bytes = hex_decode-IsByte s b q })
      | inr wrong ↦ absurd (ground arith)
    ]

pub length-hex_encode : (bs : Bytes) → length (hex_encode bs) ≡ 2 * length bs
unfolding hex_encode
length-hex_encode [] = refl
length-hex_encode (b ∷ bs) = omega (arith, length-hex_encode bs)

hex_digit-ne : (n : ℕ) → hex_digit n ≢ b'/'
unfolding hex_digit
hex_digit-ne n = ground arith

-- A hexadecimal text holds no slash.
pub hex_digit-ne-slash : (bs : Bytes) → All IsByte bs → All (λ c. c ≢ b'/') (hex_encode bs)
unfolding hex_encode
hex_digit-ne-slash [] h = tt
hex_digit-ne-slash (b ∷ bs) h =
    (hex_digit-ne (b / 16), (hex_digit-ne (b % 16), hex_digit-ne-slash bs h.1))
