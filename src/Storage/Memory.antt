-- ===== src/Storage/Memory.antt =====
-- dht/memory_storage.go: a map of values. `Get` and `Put` copy the value with its bytes, so a
-- stored value is shared with nobody, and the model needs no addresses.
use webrtc_dht.Prelude.{◌≡◌, refl, ap, ite, Option, none, some, List, [], arith, Bytes}
use mathlib.Core.Option
use webrtc_dht.Prelude.Assoc
use webrtc_dht.Key.{Key, key_eq}
use webrtc_dht.Types.{ValueMeta}

-- The map `data`: the first entry for a key counts.
pub record MemoryStorage : Type 0 where
  pub entries : List (Key × ValueMeta)

unfoldable pub new_memory_storage : MemoryStorage
new_memory_storage = record { entries = [] }

-- `make` and `copy`: a nil slice stays nil.
copy_bytes : Option Bytes → Option Bytes
copy_bytes none = none
copy_bytes (some bytes) = some bytes

copy_value : ValueMeta → ValueMeta
unfolding copy_bytes
copy_value v = record v { body = copy_bytes v.body }

unfoldable pub get : MemoryStorage → Key → Option ValueMeta
unfolding copy_value
get s key = Option.map copy_value (Assoc.lookup key_eq key s.entries)

unfoldable pub put : MemoryStorage → Key → ValueMeta → MemoryStorage
unfolding copy_value
put s key value = record { entries = Assoc.assign key_eq key (copy_value value) s.entries }

unfoldable pub delete : MemoryStorage → Key → MemoryStorage
delete s key = record { entries = Assoc.remove key_eq key s.entries }

copy_bytes_lem : (b : Option Bytes) → copy_bytes b ≡ b
unfolding copy_bytes
copy_bytes_lem none = refl
copy_bytes_lem (some b) = refl

copy_value_lem : (v : ValueMeta) → copy_value v ≡ v
unfolding copy_value
copy_value_lem v = ap (λ b. record v { body = b }) (copy_bytes_lem v.body)

-- A read after a write finds the whole value that was written, under that key alone.
pub get-put :
    (s : MemoryStorage) (key j : Key) (v : ValueMeta)
    → get (put s key v) j ≡ ite (key_eq key j) (some v) (get s j)
unfolding get put
get-put s key j v =
    ground (arith, Assoc.lookup-assign key_eq key j (copy_value v) s.entries, copy_value_lem v)

-- A deleted key is absent, and no other key is touched.
pub get-delete :
    (s : MemoryStorage) (key j : Key) → get (delete s key) j ≡ ite (key_eq key j) none (get s j)
unfolding get delete
get-delete s key j = ground (arith, Assoc.lookup-remove key_eq key j s.entries)
