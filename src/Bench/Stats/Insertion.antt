-- ===== src/Bench/Stats/Insertion.antt =====
-- cmd/webrtc_blob_local_test/main.go: what the swaps of `median` do. The part that is sorted already
-- is taken backwards, so that its last element stands first.
use webrtc_dht.Prelude.{
  ℕ, suc, ◌+◌, ◌≡◌, refl, sym, ap, ◌∙◌, List, [], ◌∷◌, arith, ltb, if◌then◌else◌, length, get_or,
  set, Bool-cases, inl, inr,
}
use webrtc_dht.Bench.Stats.{swap_down, sort_places}

-- A list backwards, before another.
abbrev pub rev_onto : List ℕ → List ℕ → List ℕ
rev_onto [] post = post
rev_onto (y ∷ rp) post = rev_onto rp (y ∷ post)

unfoldable pub insert_rev : ℕ → List ℕ → List ℕ
insert_rev x [] = x ∷ []
insert_rev x (y ∷ rp) = if ltb x y then y ∷ insert_rev x rp else x ∷ y ∷ rp

unfoldable pub insert_each : List ℕ → List ℕ → List ℕ
unfolding insert_rev
insert_each [] rp = rp
insert_each (x ∷ rest) rp = insert_each rest (insert_rev x rp)

get_or-rev_onto :
    (rp post : List ℕ) (n k : ℕ)
    → length rp + k ≡ n
    → get_or (rev_onto rp post) n 0 ≡ get_or post k 0
get_or-rev_onto [] post n k e = ap (λ i. get_or post i 0) {x = n} {y = k} (omega arith)
get_or-rev_onto (y ∷ rp) post n k e = get_or-rev_onto rp (y ∷ post) n (suc k) (omega arith)

set-rev_onto :
    (rp post : List ℕ) (n k v : ℕ)
    → length rp + k ≡ n
    → set (rev_onto rp post) n v ≡ rev_onto rp (set post k v)
set-rev_onto [] post n k v e = ap (λ i. set post i v) {x = n} {y = k} (omega arith)
set-rev_onto (y ∷ rp) post n k v e = set-rev_onto rp (y ∷ post) n (suc k) v (omega arith)

-- The inner loop inserts the element at its place.
swap_down-insert_rev :
    (x : ℕ) (rp post : List ℕ)
    → swap_down (length rp) (rev_onto rp (x ∷ post)) ≡ rev_onto (insert_rev x rp) post
unfolding swap_down insert_rev
swap_down-insert_rev x [] post = refl
swap_down-insert_rev x (y ∷ rp) post =
    let j = length rp in
    let here = get_or-rev_onto rp (y ∷ x ∷ post) (suc j) 1 (omega arith) in
    let below = get_or-rev_onto rp (y ∷ x ∷ post) j 0 (omega arith) in
    let up = set-rev_onto rp (y ∷ x ∷ post) (suc j) 1 y (omega arith) in
    let down = set-rev_onto rp (y ∷ y ∷ post) j 0 x (omega arith) in
    rw (here, below, up, down)
      (elim (Bool-cases (ltb x y)) [
        | inl e ↦ rw e (swap_down-insert_rev x rp (y ∷ post))
        | inr e ↦ rw e
      ])

length-insert_rev : (x : ℕ) (rp : List ℕ) → length (insert_rev x rp) ≡ suc (length rp)
unfolding insert_rev
length-insert_rev x [] = refl
length-insert_rev x (y ∷ rp) = ground (arith, length-insert_rev x rp)

-- The outer loop inserts the elements that are left, one after another.
pub sort_places-insert_each :
    (rest rp : List ℕ) (i : ℕ)
    → length rp ≡ i
    → sort_places (length rest) i (rev_onto rp rest) ≡ rev_onto (insert_each rest rp) []
unfolding sort_places insert_each
sort_places-insert_each [] rp i e = refl
sort_places-insert_each (x ∷ rest) rp i e =
    ap (sort_places (length rest) (suc i))
      (ap (λ n. swap_down n (rev_onto rp (x ∷ rest))) (sym e) ∙ swap_down-insert_rev x rp rest)
    ∙ sort_places-insert_each rest (insert_rev x rp) (suc i) (length-insert_rev x rp ∙ ap suc e)
