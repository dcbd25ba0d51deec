-- ===== src/Prelude/BitLen.antt =====
-- The length of a number in bits, math/big's `BitLen`.
use Prim.Native.Nat.{ℕ, zero, suc, ◌-◌, ◌*◌, ◌/◌, ◌^◌, ◌≤◌, ◌<◌}
use mathlib.Core.Path.{◌≡◌, refl}
use native.Mathlib.Omega.{arith}
use native.Mathlib.Nat.{pow-suc, pow-le-pow_right}
use native.Mathlib.Decide.{dec_lt}
use webrtc_dht.Prelude.Tests.{◌==◌, if◌then◌else◌}

-- One round for each bit; `n` rounds are more than `n` has bits.
bit_len_from : ℕ → ℕ → ℕ
bit_len_from zero n = 0
bit_len_from (suc fuel) n = let rest = suc (bit_len_from fuel (n / 2)) in if n == 0 then 0 else rest

unfoldable pub bit_len : ℕ → ℕ
unfolding bit_len_from
bit_len n = bit_len_from n n

pow_two_suc : (k : ℕ) → 2 ^ suc k ≡ 2 * 2 ^ k
pow_two_suc k = omega (arith, pow-suc 2 k)

bit_len_from-zero : (f : ℕ) → bit_len_from f 0 ≡ 0
unfolding bit_len_from
bit_len_from-zero zero = refl
bit_len_from-zero (suc f) = refl

bit_len_from-suc : (f n : ℕ) → 0 < n → bit_len_from (suc f) n ≡ suc (bit_len_from f (n / 2))
unfolding bit_len_from
bit_len_from-suc f n p = ground arith

bit_len_from_bounds :
    (f n : ℕ)
    → n ≤ f
    → 0 < n
    → (0 < bit_len_from f n) × (2 ^ (bit_len_from f n - 1) ≤ n) × (n < 2 ^ bit_len_from f n)
bit_len_from_bounds zero n h p = absurd (omega arith)
bit_len_from_bounds (suc f) zero h p = absurd (omega arith)
bit_len_from_bounds (suc f) (suc zero) h p =
    rw (bit_len_from-suc f 1 p, bit_len_from-zero f) (omega arith)
bit_len_from_bounds (suc f) (suc (suc n)) h p =
    let m = bit_len_from f (suc (suc n) / 2) in
    let (a, b, c) = bit_len_from_bounds f (suc (suc n) / 2) (omega arith) (omega arith) in
    let top : suc m - 1 ≡ suc (m - 1) = omega (arith, a) in
    rw (bit_len_from-suc f (suc (suc n)) p, top)
      (omega (arith, a, b, c, pow_two_suc m, pow_two_suc (m - 1)))

-- The highest bit of a positive number is at `bit_len n - 1`.
pub bit_len_bounds :
    (n : ℕ) → 0 < n → (0 < bit_len n) × (2 ^ (bit_len n - 1) ≤ n) × (n < 2 ^ bit_len n)
unfolding bit_len
bit_len_bounds n p = bit_len_from_bounds n n (omega arith) p

pub bit_len-zero : bit_len 0 ≡ 0
unfolding bit_len
bit_len-zero = refl

-- A number of `k` bits has at most `k` bits.
pub bit_len-le : (k n : ℕ) → n < 2 ^ k → bit_len n ≤ k
bit_len-le k zero h = omega (arith, bit_len-zero)
bit_len-le k (suc n) h = elim (dec_lt k (bit_len (suc n))) [
  | yes p ↦
      let (a, b, c) = bit_len_bounds (suc n) (omega arith) in
      absurd (omega (arith, a, b, c, pow-le-pow_right {n = 2} (omega arith) (below p)))
  | no p ↦ omega arith
]
  where
    below : k < bit_len (suc n) → k ≤ bit_len (suc n) - 1
    below p = omega arith
