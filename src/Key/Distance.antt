-- ===== src/Key/Distance.antt =====
-- dht/key.go, `GetKeyDistance`: the exclusive or of two keys, which is a metric on them.
use webrtc_dht.Prelude.{ℕ, ◌+◌, ◌≤◌, ◌<◌, ◌^◌, ◌≡◌, sym, ap, ◌∙◌, bit_xor, ◌↔◌}
use webrtc_dht.Prelude.Bits.{
  bit_xor_comm, bit_xor_self, bit_xor_cancel, bit_xor_triangle, bit_xor-lt,
}
use webrtc_dht.Key.Value.{Key, IsKey, set_bytes, set_bytes-lt, set_bytes-injective}

unfoldable pub get_key_distance : Key → Key → ℕ
get_key_distance a b = bit_xor (set_bytes a) (set_bytes b)

pub get_key_distance_comm : (a b : Key) → get_key_distance a b ≡ get_key_distance b a
unfolding get_key_distance
get_key_distance_comm a b = bit_xor_comm _ _

pub get_key_distance_self : (a : Key) → get_key_distance a a ≡ 0
unfolding get_key_distance
get_key_distance_self a = bit_xor_self _

-- From a fixed key, each distance is that of one key.
pub get_key_distance_cancel :
    {b c : Key} (a : Key) → IsKey b → IsKey c → get_key_distance a b ≡ get_key_distance a c → b ≡ c
unfolding get_key_distance
get_key_distance_cancel a p q e = set_bytes-injective p q (bit_xor_cancel (set_bytes a) _ _ e)

-- The distance of two keys fits in 160 bits.
pub get_key_distance-lt : {a b : Key} → IsKey a → IsKey b → get_key_distance a b < 2 ^ 160
unfolding get_key_distance
get_key_distance-lt p q = bit_xor-lt 160 _ _ (set_bytes-lt p) (set_bytes-lt q)

-- The distance is a metric on keys: it is zero exactly for equal keys, symmetric, satisfies the
-- triangle inequality, and from a fixed key no two keys are equally far.
pub get_key_distance-IsMetric :
    {a b c : Key}
    → IsKey a
    → IsKey b
    → IsKey c
    → ((get_key_distance a b ≡ 0) ↔ (a ≡ b))
      × (get_key_distance a b ≡ get_key_distance b a)
      × (get_key_distance a c ≤ get_key_distance a b + get_key_distance b c)
      × (get_key_distance a b ≡ get_key_distance a c → b ≡ c)
unfolding get_key_distance
get_key_distance-IsMetric {a} {b} {c} p q r = (
  (
    λ e. get_key_distance_cancel a p q (get_key_distance_self a ∙ sym e),
    λ e. ap (get_key_distance a) (sym e) ∙ get_key_distance_self a,
  ),
  get_key_distance_comm a b,
  bit_xor_triangle _ _ _,
  get_key_distance_cancel a q r,
)
