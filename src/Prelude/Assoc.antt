-- ===== src/Prelude/Assoc.antt =====
-- Go's maps as association lists over keys with a decidable equality: the first entry for a key
-- counts.
use mathlib.Core.List.{List, [], ◌∷◌}
use mathlib.Core.Logic.{◌≢◌, ite, if_pos, if_neg}
use mathlib.Core.Option.{Option, none, some}
use mathlib.Core.Path.{◌≡◌, refl, sym, ◌∙◌}
use native.Mathlib.Omega.{arith}

none_ne_some : {V : Type 0} {v : V} → ◌≢◌ {A = Option V} none (some v)
none_ne_some e = cc

module _ {K V : Type 0} (dec : Discrete K) where
  -- `m[key]`
  unfoldable pub lookup : K → List (K × V) → Option V
  lookup key [] = none
  lookup key ((j, v) ∷ m) = ite (dec j key) (some v) (lookup key m)

  -- `m[key] = v`
  unfoldable pub assign : K → V → List (K × V) → List (K × V)
  assign key v [] = (key, v) ∷ []
  assign key v ((j, w) ∷ m) = ite (dec j key) ((key, v) ∷ m) ((j, w) ∷ assign key v m)

  -- `delete(m, key)`
  unfoldable pub remove : K → List (K × V) → List (K × V)
  remove key [] = []
  remove key ((j, w) ∷ m) = let rest = remove key m in ite (dec j key) rest ((j, w) ∷ rest)

  pub lookup-assign :
      (key j : K) (v : V) (m : List (K × V))
      → lookup j (assign key v m) ≡ ite (dec key j) (some v) (lookup j m)
  unfolding lookup assign
  lookup-assign key j v [] = refl
  lookup-assign key j v ((i, w) ∷ m) = ground (arith, lookup-assign key j v m)

  pub lookup-remove :
      (key j : K) (m : List (K × V)) → lookup j (remove key m) ≡ ite (dec key j) none (lookup j m)
  unfolding lookup remove
  lookup-remove key j [] = ground arith
  lookup-remove key j ((i, w) ∷ m) = ground (arith, lookup-remove key j m)

  pub lookup-assign_self :
      (key : K) (v : V) (m : List (K × V)) → lookup key (assign key v m) ≡ some v
  lookup-assign_self key v m = lookup-assign key key v m ∙ if_pos (dec key key) refl _ _

  pub lookup-assign_ne :
      (key j : K) (v : V) (m : List (K × V)) → key ≢ j → lookup j (assign key v m) ≡ lookup j m
  lookup-assign_ne key j v m h = lookup-assign key j v m ∙ if_neg (dec key j) h _ _

  pub lookup-remove_self : (key : K) (m : List (K × V)) → lookup key (remove key m) ≡ none
  lookup-remove_self key m = lookup-remove key key m ∙ if_pos (dec key key) refl _ _

  pub lookup-remove_ne :
      (key j : K) (m : List (K × V)) → key ≢ j → lookup j (remove key m) ≡ lookup j m
  lookup-remove_ne key j m h = lookup-remove key j m ∙ if_neg (dec key j) h _ _

  -- What is found under a key after it was removed was there, under another key.
  pub lookup-remove-some :
      (key j : K) (m : List (K × V)) {v : V}
      → lookup j (remove key m) ≡ some v
      → (key ≢ j) × (lookup j m ≡ some v)
  lookup-remove-some key j m e = elim (dec key j) [
    | yes same ↦
        absurd (none_ne_some (sym (lookup-remove key j m ∙ if_pos (dec key j) same _ _) ∙ e))
    | no other ↦ (other, sym (lookup-remove_ne key j m other) ∙ e)
  ]
