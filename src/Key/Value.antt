-- ===== src/Key/Value.antt =====
-- dht/key.go, `DHTKey`: an array of 20 bytes, the most significant one first, and the number that
-- `big.Int.SetBytes` reads from it.
use webrtc_dht.Prelude.{
  ℕ, suc, ◌+◌, ◌*◌, ◌^◌, ◌≤◌, ◌<◌, ◌≡◌, refl, ap, ◌≢◌, List, [], ◌∷◌, arith, length, All,
  ℕ_discrete,
}
use native.Mathlib.Nat.{pow-suc, mul-le-mul_right}

abbrev pub Key : Type 0
Key = List ℕ

abbrev pub NodeId : Type 0
NodeId = Key

nil-ne-cons : (y : ℕ) (ys : Key) → [] ≢ y ∷ ys
nil-ne-cons y ys e = cc

cons-ne-nil : (x : ℕ) (xs : Key) → x ∷ xs ≢ []
cons-ne-nil x xs e = cc

eq-cons : {x y : ℕ} {xs ys : Key} → x ≡ y → xs ≡ ys → x ∷ xs ≡ y ∷ ys
eq-cons p q = cc

ne_of_head : {x y : ℕ} {xs ys : Key} → x ≢ y → x ∷ xs ≢ y ∷ ys
ne_of_head h e = h (cc)

ne_of_tail : {x y : ℕ} {xs ys : Key} → xs ≢ ys → x ∷ xs ≢ y ∷ ys
ne_of_tail h e = h (cc)

-- Go's `==` on arrays.
unfoldable pub key_eq : Discrete Key
unfolding ℕ_discrete nil-ne-cons cons-ne-nil eq-cons ne_of_head ne_of_tail
key_eq [] [] = yes refl
key_eq [] (y ∷ ys) = no (nil-ne-cons y ys)
key_eq (x ∷ xs) [] = no (cons-ne-nil x xs)
key_eq (x ∷ xs) (y ∷ ys) = elim (ℕ_discrete x y) [
  | yes p ↦ elim (key_eq xs ys) [ yes q ↦ yes (eq-cons p q) | no q ↦ no (ne_of_tail q) ]
  | no p ↦ no (ne_of_head p)
]

abbrev pub IsByte : ℕ → Type 0
IsByte b = b < 256

-- What the type `[20]byte` promises.
pub record IsKey (k : Key) : Type 0 where
  pub size : length k ≡ 20
  pub bytes : All IsByte k

unfoldable pub set_bytes_from : ℕ → List ℕ → ℕ
set_bytes_from acc [] = acc
set_bytes_from acc (b ∷ bs) = set_bytes_from (acc * 256 + b) bs

unfoldable pub set_bytes : List ℕ → ℕ
unfolding set_bytes_from
set_bytes bs = set_bytes_from 0 bs

set_bytes_from-lt :
    (acc : ℕ) (bs : List ℕ) → All IsByte bs → set_bytes_from acc bs < suc acc * 256 ^ length bs
unfolding set_bytes_from
set_bytes_from-lt acc [] h = omega arith
set_bytes_from-lt acc (b ∷ bs) h =
    let bound : suc (acc * 256 + b) ≤ suc acc * 256 = omega (arith, h.0) in
    omega (
      arith,
      pow-suc 256 (length bs),
      set_bytes_from-lt (acc * 256 + b) bs h.1,
      mul-le-mul_right (256 ^ length bs) bound,
      ap (λ (n : ℕ). suc acc * n) (pow-suc 256 (length bs)),
    )

-- The number of a key has 160 bits.
pub set_bytes-lt : {k : Key} → IsKey k → set_bytes k < 2 ^ 160
unfolding set_bytes
set_bytes-lt {k} h =
    let e = ap (λ (n : ℕ). 256 ^ n) h.size in omega (arith, e, set_bytes_from-lt 0 k h.bytes)

set_bytes_from-injective :
    (a b : ℕ) (xs ys : List ℕ)
    → length xs ≡ length ys
    → All IsByte xs
    → All IsByte ys
    → set_bytes_from a xs ≡ set_bytes_from b ys
    → (a ≡ b) × (xs ≡ ys)
unfolding set_bytes_from
set_bytes_from-injective a b [] [] l p q e = (e, refl)
set_bytes_from-injective a b [] (y ∷ ys) l p q e = absurd (omega arith)
set_bytes_from-injective a b (x ∷ xs) [] l p q e = absurd (omega arith)
set_bytes_from-injective a b (x ∷ xs) (y ∷ ys) l p q e =
    let (h, t) =
      set_bytes_from-injective (a * 256 + x) (b * 256 + y) xs ys (omega arith) p.1 q.1 e in
    let c : x ≡ y = omega arith in (omega arith, cc)

-- Different keys are different numbers.
pub set_bytes-injective : {a b : Key} → IsKey a → IsKey b → set_bytes a ≡ set_bytes b → a ≡ b
unfolding set_bytes
set_bytes-injective {a} {b} p q e =
    (set_bytes_from-injective 0 0 a b (omega (arith, p.size, q.size)) p.bytes q.bytes e).1
