-- ===== src/Bench/Stats/Median.antt =====
-- `median` of cmd/webrtc_blob_local_test/main.go and `medianDur` of cmd/bench_transport/main.go.
use webrtc_dht.Prelude.{
  ℕ, suc, ◌-◌, ◌≡◌, ◌≤◌, ◌<◌, ◌/◌, refl, sym, ap, ◌∙◌, true, false, List, [], ◌∷◌, arith, ltb,
  ltb→lt, length, get_or, Bool-cases, inl, inr, All,
}
use webrtc_dht.Prelude.Sort.{insert_by, sort_by}
use webrtc_dht.Bench.Stats.{swap_sort, sort_places, median, median_dur}
use webrtc_dht.Bench.Stats.Insertion.{rev_onto, insert_rev, insert_each, sort_places-insert_each}

abbrev Falling : List ℕ → Type 0
Falling [] = Unit
Falling (y ∷ rp) = All (λ z. z ≤ y) rp × Falling rp

abbrev insert : ℕ → List ℕ → List ℕ
insert x ys = insert_by (λ n. n) x ys

abbrev insert_all : List ℕ → List ℕ → List ℕ
insert_all [] s = s
insert_all (x ∷ xs) s = insert x (insert_all xs s)

insert-insert : (x y : ℕ) (zs : List ℕ) → insert x (insert y zs) ≡ insert y (insert x zs)
unfolding insert_by
insert-insert x y [] = ground arith
insert-insert x y (z ∷ zs) = ground (arith, insert-insert x y zs)

insert_all-insert :
    (xs : List ℕ) (x : ℕ) (s : List ℕ) → insert_all xs (insert x s) ≡ insert x (insert_all xs s)
insert_all-insert [] x s = refl
insert_all-insert (y ∷ xs) x s =
    ap (insert y) (insert_all-insert xs x s) ∙ insert-insert y x (insert_all xs s)

insert_all-nil : (xs : List ℕ) → insert_all xs [] ≡ sort_by (λ n. n) xs
unfolding sort_by
insert_all-nil [] = refl
insert_all-nil (x ∷ xs) = ap (insert x) (insert_all-nil xs)

sort_by-rev_onto :
    (xs post : List ℕ) → sort_by (λ n. n) (rev_onto xs post) ≡ insert_all xs (sort_by (λ n. n) post)
unfolding sort_by
sort_by-rev_onto [] post = refl
sort_by-rev_onto (x ∷ xs) post =
    sort_by-rev_onto xs (x ∷ post) ∙ insert_all-insert xs x (sort_by (λ n. n) post)

All-insert_rev :
    (b x : ℕ) (rp : List ℕ) → x ≤ b → All (λ z. z ≤ b) rp → All (λ z. z ≤ b) (insert_rev x rp)
unfolding insert_rev
All-insert_rev b x [] p h = (p, tt)
All-insert_rev b x (y ∷ rp) p h = elim (Bool-cases (ltb x y)) [
  | inl e ↦ rw e (h.0, All-insert_rev b x rp p h.1)
  | inr e ↦ rw e (p, h)
]

All-le_trans : (m n : ℕ) (xs : List ℕ) → m ≤ n → All (λ z. z ≤ m) xs → All (λ z. z ≤ n) xs
All-le_trans m n [] h a = tt
All-le_trans m n (x ∷ xs) h a = (omega (arith, a.0), All-le_trans m n xs h a.1)

insert_rev-Falling : (x : ℕ) (rp : List ℕ) → Falling rp → Falling (insert_rev x rp)
unfolding insert_rev
insert_rev-Falling x [] h = (tt, tt)
insert_rev-Falling x (y ∷ rp) h = elim (Bool-cases (ltb x y)) [
  | inl e ↦
      rw e (All-insert_rev y x rp (omega (arith, ltb→lt _ _ e)) h.0, insert_rev-Falling x rp h.1)
  | inr e ↦ let le : y ≤ x = ground arith in rw e ((le, All-le_trans y x rp le h.0), h)
]

All-lt : (m n : ℕ) (xs : List ℕ) → m < n → All (λ z. z ≤ m) xs → All (λ z. z < n) xs
All-lt m n [] h a = tt
All-lt m n (x ∷ xs) h a = (omega (arith, a.0), All-lt m n xs h a.1)

insert-rev_onto_below :
    (x : ℕ) (rp post post' : List ℕ)
    → All (λ z. z < x) rp
    → insert x post ≡ post'
    → insert x (rev_onto rp post) ≡ rev_onto rp post'
unfolding insert_by
insert-rev_onto_below x [] post post' a h = h
insert-rev_onto_below x (y ∷ rp) post post' a h =
    let e : ltb y x ≡ true = ground (arith, a.0) in
    insert-rev_onto_below x rp (y ∷ post) (y ∷ post') a.1 (rw e (ap (λ ys. y ∷ ys) h))

insert-before : (x y : ℕ) (ys : List ℕ) → ltb y x ≡ false → insert x (y ∷ ys) ≡ x ∷ y ∷ ys
unfolding insert_by
insert-before x y ys e = rw e refl

insert-rev_onto_above :
    (x : ℕ) (rp post : List ℕ)
    → All (λ z. z ≤ x) rp
    → Falling rp
    → insert x post ≡ x ∷ post
    → insert x (rev_onto rp post) ≡ rev_onto rp (x ∷ post)
insert-rev_onto_above x [] post a f h = h
insert-rev_onto_above x (y ∷ rp) post a f h = elim (Bool-cases (ltb y x)) [
  | inl e ↦
      insert-rev_onto_below x (y ∷ rp) post (x ∷ post)
        (ltb→lt _ _ e, All-lt y x rp (ltb→lt _ _ e) f.0) h
  | inr e ↦
      let same : x ≡ y = ground (arith, a.0) in
      insert-rev_onto_above x rp (y ∷ post) a.1 f.1 (insert-before x y post e)
      ∙ ap (λ n. rev_onto rp (n ∷ y ∷ post)) same
      ∙ ap (λ n. rev_onto rp (y ∷ n ∷ post)) (sym same)
]

-- To insert from behind and from the front is the same.
insert-rev_onto :
    (x : ℕ) (rp post : List ℕ)
    → Falling rp
    → insert x post ≡ x ∷ post
    → insert x (rev_onto rp post) ≡ rev_onto (insert_rev x rp) post
unfolding insert_rev
insert-rev_onto x [] post f h = h
insert-rev_onto x (y ∷ rp) post f h = elim (Bool-cases (ltb x y)) [
  | inl e ↦
      let e' : ltb y x ≡ false = ground (arith, ltb→lt _ _ e) in
      rw e (insert-rev_onto x rp (y ∷ post) f.1 (insert-before x y post e'))
  | inr e ↦
      let le : y ≤ x = ground arith in
      rw e (insert-rev_onto_above x (y ∷ rp) post (le, All-le_trans y x rp le f.0) f h)
]

rev_onto-insert_each :
    (rest rp ds : List ℕ)
    → Falling rp
    → rev_onto rp [] ≡ sort_by (λ n. n) ds
    → rev_onto (insert_each rest rp) [] ≡ sort_by (λ n. n) (rev_onto rest ds)
unfolding insert_each sort_by insert_by
rev_onto-insert_each [] rp ds f h = h
rev_onto-insert_each (x ∷ rest) rp ds f h =
    rev_onto-insert_each rest (insert_rev x rp) (x ∷ ds) (insert_rev-Falling x rp f)
      (sym (insert-rev_onto x rp [] f refl) ∙ ap (insert x) h)

swap_sort-sort_by : (d : ℕ) (ds : List ℕ) → swap_sort (d ∷ ds) ≡ sort_by (λ n. n) (d ∷ ds)
unfolding sort_by insert_by
swap_sort-sort_by d ds =
    ap (λ n. sort_places n 1 (d ∷ ds)) {x = suc (length ds) - 1} {y = length ds} (omega arith)
    ∙ sort_places-insert_each ds (d ∷ []) 1 refl
    ∙ rev_onto-insert_each ds (d ∷ []) (d ∷ []) (tt, tt) refl
    ∙ sort_by-rev_onto ds (d ∷ [])
    ∙ insert_all-insert ds d []
    ∙ ap (insert d) (insert_all-nil ds)

-- The median that is found by swaps of neighbours and the one that is found by sort.Slice are the
-- same, whatever the durations.
pub median-eq-median_dur : (ds : List ℕ) → median ds ≡ median_dur ds
unfolding median median_dur
median-eq-median_dur [] = refl
median-eq-median_dur (d ∷ ds) = ap (λ s. get_or s (length s / 2) 0) (swap_sort-sort_by d ds)
