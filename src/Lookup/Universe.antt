-- ===== src/Lookup/Universe.antt =====
-- The keys, as a list: there are 256 ^ 20 of them. The list is never computed.
use webrtc_dht.Prelude.{
  ℕ, zero, suc, ◌*◌, ◌^◌, ◌<◌, ◌≡◌, refl, ap, List, [], ◌∷◌, ◌++◌, map, arith, length,
  length-append, All, Occurs, inl, inr, ℕ_discrete,
}
use native.Mathlib.Nat.{pow-suc}
use webrtc_dht.Key.{Key, IsKey, IsByte}

-- The lists that begin with a byte below `b` and go on as one of `ls`.
prefix : ℕ → List Key → List Key
prefix zero ls = []
prefix (suc b) ls = map (◌∷◌ b) ls ++ prefix b ls

all_lists : ℕ → List Key
all_lists zero = [] ∷ []
all_lists (suc n) = prefix 256 (all_lists n)

pub all_keys : List Key
all_keys = all_lists 20

length-prefix : (b : ℕ) (ls : List Key) → length (prefix b ls) ≡ b * length ls
unfolding prefix
length-prefix zero ls = omega arith
length-prefix (suc b) ls =
    omega
      (arith, length-append (map (◌∷◌ b) ls) (prefix b ls), length-map_cons ls, length-prefix b ls)
  where
    length-map_cons : (xs : List Key) → length (map (◌∷◌ b) xs) ≡ length xs
    length-map_cons [] = refl
    length-map_cons (x ∷ xs) = ap suc (length-map_cons xs)

length-all_lists : (n : ℕ) → length (all_lists n) ≡ 256 ^ n
unfolding all_lists
length-all_lists zero = refl
length-all_lists (suc n) =
    omega (arith, length-prefix 256 (all_lists n), length-all_lists n, pow-suc 256 n)

pub length-all_keys : length all_keys ≡ 2 ^ 160
unfolding all_keys
length-all_keys = length-all_lists 20

module _ {A : Type 0} (a : A) where
  Occurs-append_left : (xs ys : List A) → Occurs a xs → Occurs a (xs ++ ys)
  Occurs-append_left [] ys h = elim h [ ]
  Occurs-append_left (x ∷ xs) ys (inl e) = inl e
  Occurs-append_left (x ∷ xs) ys (inr h) = inr (Occurs-append_left xs ys h)

  Occurs-append_right : (xs ys : List A) → Occurs a ys → Occurs a (xs ++ ys)
  Occurs-append_right [] ys h = h
  Occurs-append_right (x ∷ xs) ys h = inr (Occurs-append_right xs ys h)

Occurs-map_cons : (b : ℕ) (t : Key) (ls : List Key) → Occurs t ls → Occurs (b ∷ t) (map (◌∷◌ b) ls)
Occurs-map_cons b t [] h = elim h [ ]
Occurs-map_cons b t (x ∷ xs) (inl e) = inl (ap (◌∷◌ b) e)
Occurs-map_cons b t (x ∷ xs) (inr h) = inr (Occurs-map_cons b t xs h)

Occurs-prefix :
    (c b : ℕ) (t : Key) (ls : List Key) → c < b → Occurs t ls → Occurs (c ∷ t) (prefix b ls)
unfolding prefix
Occurs-prefix c zero t ls h o = elim h [ ]
Occurs-prefix c (suc b) t ls h o = elim (ℕ_discrete b c) [
  | yes p ↦ rw p (Occurs-append_left _ (map (◌∷◌ c) ls) (prefix c ls) (Occurs-map_cons c t ls o))
  | no p ↦
      Occurs-append_right _ (map (◌∷◌ b) ls) (prefix b ls) (Occurs-prefix c b t ls (omega arith) o)
]

Occurs-all_lists : (n : ℕ) (l : Key) → length l ≡ n → All IsByte l → Occurs l (all_lists n)
unfolding all_lists
Occurs-all_lists zero [] e h = inl refl
Occurs-all_lists zero (x ∷ xs) e h = absurd (omega arith)
Occurs-all_lists (suc n) [] e h = absurd (omega arith)
Occurs-all_lists (suc n) (x ∷ xs) e h =
    Occurs-prefix x 256 xs (all_lists n) h.0 (Occurs-all_lists n xs (omega arith) h.1)

pub Occurs-all_keys : (key : Key) → IsKey key → Occurs key all_keys
unfolding all_keys
Occurs-all_keys key h = Occurs-all_lists 20 key h.size h.bytes
