-- ===== src/Prelude/Bits.antt =====
-- Exclusive or at every width: the equation for the lowest digit, and the laws that make it a
-- metric.
use Prim.Native.Nat.{
  ℕ, zero, suc, ◌+◌, ◌*◌, ◌/◌, ◌%◌, ◌^◌, ◌≤◌, ◌<◌, bit_xor, bit_xor-bitwise, bitwise, digits,
  differ,
}
use mathlib.Core.Path.{◌≡◌, refl}
use mathlib.Core.Logic.{◌⊎◌, inl, inr}
use native.Mathlib.Omega.{arith}
use native.Mathlib.Nat.{le_refl, pow-suc}
use webrtc_dht.Prelude.Order.{strong_induction}

-- The fuel of the recursion on digits does not matter.
xor_fuel :
    (n m a b : ℕ) → a ≤ n → a ≤ m → digits (λ b. b) differ n a b ≡ digits (λ b. b) differ m a b
xor_fuel zero zero a b p q = refl
xor_fuel zero (suc m) zero b p q = refl
xor_fuel zero (suc m) (suc a) b p q = absurd (omega arith)
xor_fuel (suc n) zero zero b p q = refl
xor_fuel (suc n) zero (suc a) b p q = absurd (omega arith)
xor_fuel (suc n) (suc m) zero b p q = refl
xor_fuel (suc n) (suc m) (suc a) b p q =
    rw (xor_fuel n m (suc a / 2) (b / 2) (omega arith) (omega arith))

xor_suc :
    (a b : ℕ)
    → bitwise (λ b. b) differ (suc a) b
      ≡ bitwise (λ b. b) differ (suc a / 2) (b / 2) * 2 + differ (suc a % 2) (b % 2)
xor_suc a b = omega (arith, xor_fuel a (suc a / 2) (suc a / 2) (b / 2) (omega arith) (le_refl _))

pub bit_xor_step : (a b : ℕ) → bit_xor a b ≡ bit_xor (a / 2) (b / 2) * 2 + differ (a % 2) (b % 2)
bit_xor_step zero b = simp bit_xor-bitwise (omega arith)
bit_xor_step (suc a) b = simp bit_xor-bitwise (xor_suc a b)

differ_cases :
    (x y : ℕ) → x < 2 → y < 2 → ((x ≡ y) × (differ x y ≡ 0)) ⊎ ((x + y ≡ 1) × (differ x y ≡ 1))
differ_cases zero zero p q = inl (refl, refl)
differ_cases zero (suc zero) p q = inr (refl, refl)
differ_cases zero (suc (suc y)) p q = absurd (omega arith)
differ_cases (suc zero) zero p q = inr (refl, refl)
differ_cases (suc zero) (suc zero) p q = inl (refl, refl)
differ_cases (suc zero) (suc (suc y)) p q = absurd (omega arith)
differ_cases (suc (suc x)) y p q = absurd (omega arith)

-- The lowest digit of an exclusive or says whether the lowest digits differ.
bit_xor_cases :
    (a b : ℕ)
    → ((a % 2 ≡ b % 2) × (bit_xor a b ≡ bit_xor (a / 2) (b / 2) * 2))
      ⊎ ((a % 2 + b % 2 ≡ 1) × (bit_xor a b ≡ bit_xor (a / 2) (b / 2) * 2 + 1))
bit_xor_cases a b = elim (differ_cases (a % 2) (b % 2) (omega arith) (omega arith)) [
  | inl (p, q) ↦ inl (p, omega (arith, bit_xor_step a b))
  | inr (p, q) ↦ inr (p, omega (arith, bit_xor_step a b))
]

zero-bit_xor : (b : ℕ) → bit_xor 0 b ≡ b
zero-bit_xor b = simp bit_xor-bitwise

xor_comm_fuel : (n a b : ℕ) → a ≤ n → b ≤ n → bit_xor a b ≡ bit_xor b a
xor_comm_fuel zero zero zero p q = refl
xor_comm_fuel zero zero (suc b) p q = absurd (omega arith)
xor_comm_fuel zero (suc a) b p q = absurd (omega arith)
xor_comm_fuel (suc n) a b p q = omega (
  arith,
  bit_xor_cases a b,
  bit_xor_cases b a,
  xor_comm_fuel n (a / 2) (b / 2) (omega arith) (omega arith),
)

pub bit_xor_comm : (a b : ℕ) → bit_xor a b ≡ bit_xor b a
bit_xor_comm a b = xor_comm_fuel (a + b) a b (omega arith) (omega arith)

pub bit_xor_self : (a : ℕ) → bit_xor a a ≡ 0
bit_xor_self = strong_induction _ step
  where
    step : (n : ℕ) → ((m : ℕ) → m < n → bit_xor m m ≡ 0) → bit_xor n n ≡ 0
    step zero ih = refl
    step (suc n) ih = omega (arith, bit_xor_cases (suc n) (suc n), ih (suc n / 2) (omega arith))

xor_cancel_fuel : (n a b c : ℕ) → a ≤ n → b ≤ n → c ≤ n → bit_xor a b ≡ bit_xor a c → b ≡ c
xor_cancel_fuel zero a b c p q r h = omega arith
xor_cancel_fuel (suc n) a b c p q r h =
    let x = bit_xor_cases a b in
    let y = bit_xor_cases a c in
    let e : bit_xor (a / 2) (b / 2) ≡ bit_xor (a / 2) (c / 2) = omega (arith, x, y) in
    let f = xor_cancel_fuel n (a / 2) (b / 2) (c / 2) (omega arith) (omega arith) (omega arith) e in
    omega (arith, x, y, f)

-- From a fixed number, different numbers are at different distances.
pub bit_xor_cancel : (a b c : ℕ) → bit_xor a b ≡ bit_xor a c → b ≡ c
bit_xor_cancel a b c h =
    xor_cancel_fuel (a + b + c) a b c (omega arith) (omega arith) (omega arith) h

xor_triangle_fuel : (n a b c : ℕ) → a ≤ n → b ≤ n → c ≤ n → bit_xor a c ≤ bit_xor a b + bit_xor b c
xor_triangle_fuel zero zero zero zero p q r = omega arith
xor_triangle_fuel zero zero zero (suc c) p q r = absurd (omega arith)
xor_triangle_fuel zero zero (suc b) c p q r = absurd (omega arith)
xor_triangle_fuel zero (suc a) b c p q r = absurd (omega arith)
xor_triangle_fuel (suc n) a b c p q r = omega (
  arith,
  bit_xor_cases a b,
  bit_xor_cases b c,
  bit_xor_cases a c,
  xor_triangle_fuel n (a / 2) (b / 2) (c / 2) (omega arith) (omega arith) (omega arith),
)

pub bit_xor_triangle : (a b c : ℕ) → bit_xor a c ≤ bit_xor a b + bit_xor b c
bit_xor_triangle a b c =
    xor_triangle_fuel (a + b + c) a b c (omega arith) (omega arith) (omega arith)

-- An exclusive or of numbers of `k` bits has `k` bits.
pub bit_xor-lt : (k a b : ℕ) → a < 2 ^ k → b < 2 ^ k → bit_xor a b < 2 ^ k
bit_xor-lt zero zero zero p q = omega arith
bit_xor-lt zero zero (suc b) p q = absurd (omega arith)
bit_xor-lt zero (suc a) b p q = absurd (omega arith)
bit_xor-lt (suc k) a b p q =
    let e = pow-suc 2 k in
    omega (
      arith,
      e,
      bit_xor_cases a b,
      bit_xor-lt k (a / 2) (b / 2) (omega (arith, e)) (omega (arith, e)),
    )
