-- ===== src/Types.antt =====
-- The data that every part passes: errors, contacts and stored values.
use webrtc_dht.Prelude.{
  Bool, true, false, Option, List, ℤ, Text, Bytes, codes, ◌++◌, ◌≡◌, refl, ◌⊎◌, inl, inr,
}
use webrtc_dht.Key.{NodeId}

-- A Go `error`: the sentinel `ErrNotFound` of dht/storage.go, `errors.New`, and `fmt.Errorf` with
-- a text, `%w` and the error that it wraps.
pub data Error : Type 0 where
  not_found : Error
  message : Text → Error
  wrapped : Text → Error → Error

-- `err.Error()`
unfoldable pub error_text : Error → Text
error_text not_found = codes "not found"
error_text (message t) = t
error_text (wrapped t e) = t ++ error_text e

-- `errors.Is(err, ErrNotFound)`
unfoldable pub is_not_found : Error → Bool
is_not_found not_found = true
is_not_found (message t) = false
is_not_found (wrapped t e) = is_not_found e

-- A pair of a result and an error of which one is nil.
pub data Result {ℓ} (A : Type ℓ) : Type ℓ where
  err : Error → Result A
  ok : A → Result A

infixl 5 ◌>>=◌
abbrev pub ◌>>=◌ {ℓ κ} : {A : Type ℓ} {B : Type κ} → Result A → (A → Result B) → Result B
err e >>= next = err e
ok value >>= next = next value

-- dht/node.go: a contact. `address` is a `net.IP`; `meta` is nil or a map, here an association
-- list whose first entry for a name counts.
pub record NetworkNode : Type 0 where
  pub id : NodeId
  pub address : Bytes
  pub port : ℤ
  pub meta : Option (List (Text × Text))

-- dht/storage.go: a stored value. `body` is the field `Data`, nil or a slice.
pub record ValueMeta : Type 0 where
  pub inline : Bool
  pub body : Option Bytes
  pub blob_ref : Text
  pub blob_node : NodeId
  pub size : ℤ
  pub mime_type : Text

pub ok-injective {ℓ} : {A : Type ℓ} {a b : A} → ok a ≡ ok b → a ≡ b
ok-injective e = cc

-- A chain that succeeds has a first step that succeeds.
pub first_step {ℓ κ} :
    {A : Type ℓ} {B : Type κ} {result : B} (step : Result A) (next : A → Result B)
    → (step >>= next) ≡ ok result
    → (value : A) × (step ≡ ok value) × (next value ≡ ok result)
first_step (err e) next h = cc
first_step (ok value) next h = (value, refl, h)

pub Result-cases {ℓ} :
    {A : Type ℓ} (r : Result A) → ((a : A) × (r ≡ ok a)) ⊎ ((e : Error) × (r ≡ err e))
Result-cases (ok a) = inl (a, refl)
Result-cases (err e) = inr (e, refl)
