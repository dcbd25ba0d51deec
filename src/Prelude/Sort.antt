-- ===== src/Prelude/Sort.antt =====
-- `sort.Slice` by a number that each element has, as an insertion sort; for elements with the same
-- number Go leaves the order open.
use Prim.Native.Nat.{ℕ, zero, suc, ◌≤◌}
use mathlib.Core.Path.{◌≡◌, refl}
use mathlib.Core.List.{List, [], ◌∷◌, Perm}
use mathlib.Core.List.Perm
use native.Mathlib.Omega.{arith}
use webrtc_dht.Prelude.Tests.{ltb, ltb→lt, if◌then◌else◌, Bool-cases}
use mathlib.Core.Logic.{inl, inr}
use webrtc_dht.Prelude.Lists.{length, take, drop, All, All-take, All-drop}

-- The rank never falls along the list.
abbrev pub IsSorted {ℓ} : {A : Type ℓ} → (A → ℕ) → List A → Type 0
IsSorted f [] = Unit
IsSorted f (x ∷ xs) = All (λ y. f x ≤ f y) xs × IsSorted f xs

module _ {ℓ} {A : Type ℓ} (f : A → ℕ) where
  unfoldable pub insert_by : A → List A → List A
  insert_by x [] = x ∷ []
  insert_by x (y ∷ ys) = if ltb (f y) (f x) then y ∷ insert_by x ys else x ∷ y ∷ ys

  unfoldable pub sort_by : List A → List A
  unfolding insert_by
  sort_by [] = []
  sort_by (x ∷ xs) = insert_by x (sort_by xs)

  All-insert_by {κ} :
      (P : A → Type κ) (x : A) (ys : List A) → P x → All P ys → All P (insert_by x ys)
  unfolding insert_by
  All-insert_by P x [] p h = (p, tt)
  All-insert_by P x (y ∷ ys) p h = elim (Bool-cases (ltb (f y) (f x))) [
    | inl e ↦ rw e (h.0, All-insert_by P x ys p h.1)
    | inr e ↦ rw e (p, h)
  ]

  pub All-sort_by {κ} : (P : A → Type κ) (xs : List A) → All P xs → All P (sort_by xs)
  unfolding sort_by
  All-sort_by P [] h = tt
  All-sort_by P (x ∷ xs) h = All-insert_by P x (sort_by xs) h.0 (All-sort_by P xs h.1)

  insert_by-perm : (x : A) (ys : List A) → Perm (insert_by x ys) (x ∷ ys)
  unfolding insert_by
  insert_by-perm x [] = Perm.rfl
  insert_by-perm x (y ∷ ys) = elim (Bool-cases (ltb (f y) (f x))) [
    | inl e ↦ rw e (Perm.trans (Perm.cons y (insert_by-perm x ys)) (Perm.swap x y ys))
    | inr e ↦ rw e Perm.rfl
  ]

  -- Sorting only reorders.
  pub sort_by-perm : (xs : List A) → Perm (sort_by xs) xs
  unfolding sort_by
  sort_by-perm [] = Perm.rfl
  sort_by-perm (x ∷ xs) = Perm.trans (insert_by-perm x (sort_by xs)) (Perm.cons x (sort_by-perm xs))

  length-insert_by : (x : A) (ys : List A) → length (insert_by x ys) ≡ suc (length ys)
  unfolding insert_by
  length-insert_by x [] = refl
  length-insert_by x (y ∷ ys) = ground (arith, length-insert_by x ys)

  pub length-sort_by : (xs : List A) → length (sort_by xs) ≡ length xs
  unfolding sort_by
  length-sort_by [] = refl
  length-sort_by (x ∷ xs) = omega (arith, length-insert_by x (sort_by xs), length-sort_by xs)

  All-le_trans : (m n : ℕ) (xs : List A) → m ≤ n → All (λ y. n ≤ f y) xs → All (λ y. m ≤ f y) xs
  All-le_trans m n [] h a = tt
  All-le_trans m n (x ∷ xs) h a = (omega (arith, a.0), All-le_trans m n xs h a.1)

  insert_by-IsSorted : (x : A) (ys : List A) → IsSorted f ys → IsSorted f (insert_by x ys)
  unfolding insert_by
  insert_by-IsSorted x [] h = (tt, tt)
  insert_by-IsSorted x (y ∷ ys) h = elim (Bool-cases (ltb (f y) (f x))) [
    | inl e ↦ rw e (
      All-insert_by (λ z. f y ≤ f z) x ys (omega (arith, ltb→lt _ _ e)) h.0,
      insert_by-IsSorted x ys h.1,
    )
    | inr e ↦
        let le : f x ≤ f y = ground arith in rw e ((le, All-le_trans (f x) (f y) ys le h.0), h)
  ]

  pub sort_by-IsSorted : (xs : List A) → IsSorted f (sort_by xs)
  unfolding sort_by
  sort_by-IsSorted [] = tt
  sort_by-IsSorted (x ∷ xs) = insert_by-IsSorted x (sort_by xs) (sort_by-IsSorted xs)

  pub take-IsSorted : (n : ℕ) (xs : List A) → IsSorted f xs → IsSorted f (take n xs)
  take-IsSorted zero xs h = tt
  take-IsSorted (suc n) [] h = tt
  take-IsSorted (suc n) (x ∷ xs) h = (All-take _ n xs h.0, take-IsSorted n xs h.1)

  -- In a sorted list nothing after a place ranks below what stands before it.
  pub take-le-drop :
      (n : ℕ) (xs : List A)
      → IsSorted f xs
      → All (λ x. All (λ y. f x ≤ f y) (drop n xs)) (take n xs)
  take-le-drop zero xs h = tt
  take-le-drop (suc n) [] h = tt
  take-le-drop (suc n) (x ∷ xs) h = (All-drop _ n xs h.0, take-le-drop n xs h.1)
