-- ===== src/Routing/Bucket.antt =====
-- dht/routing_table.go: lemmas on one bucket and on the array of buckets, and what a bucket of a
-- correct table holds.
use webrtc_dht.Prelude.{
  ℕ, zero, suc, ◌+◌, ◌≤◌, ◌<◌, ◌≡◌, sym, ap, subst, ◌≢◌, ◌⊎◌, none, some, List, [], ◌∷◌, ◌++◌,
  arith, length, get_or, set, All, All-append, length-append, Option-cases, inl, inr,
}
use webrtc_dht.Key.{NodeId, IsKey, key_eq}
use webrtc_dht.Types.{NetworkNode}
use webrtc_dht.Routing.{k, without, index_for}

-- No two contacts have one identifier.
abbrev pub Distinct : List NetworkNode → Type 0
Distinct [] = Unit
Distinct (n ∷ ns) = All (λ m. m.id ≢ n.id) ns × Distinct ns

-- A contact that may stand in bucket `i` of the table of `own`.
pub record IsContact (own : NodeId) (i : ℕ) (n : NetworkNode) : Type 0 where
  pub is_key : IsKey n.id
  pub foreign : own ≢ n.id
  pub placed : index_for own n.id ≡ i

pub record Fits (own : NodeId) (i : ℕ) (b : List NetworkNode) : Type 0 where
  pub bounded : length b ≤ k
  pub contacts : All (IsContact own i) b

pub record IsBucket (own : NodeId) (i : ℕ) (b : List NetworkNode) : Type 0 where
  pub fits : Fits own i b
  pub distinct : Distinct b

-- Bucket number `i`, `i + 1` and so on have the property.
abbrev pub Each : (ℕ → List NetworkNode → Type 0) → ℕ → List (List NetworkNode) → Type 0
Each Q i [] = Unit
Each Q i (b ∷ bs) = Q i b × Each Q (suc i) bs

module _ (Q : ℕ → List NetworkNode → Type 0) where
  pub Each-get :
      (i j : ℕ) (bs : List (List NetworkNode))
      → Each Q i bs
      → j < length bs
      → Q (i + j) (get_or bs j [])
  Each-get i j [] e h = elim h [ ]
  Each-get i zero (b ∷ bs) e h = let same : i + 0 ≡ i = omega arith in rw same e.0
  Each-get i (suc j) (b ∷ bs) e h =
      let same : i + suc j ≡ suc i + j = omega arith in
      rw same (Each-get (suc i) j bs e.1 (omega arith))

  pub Each-set :
      (i j : ℕ) (bs : List (List NetworkNode)) (b : List NetworkNode)
      → Each Q i bs
      → Q (i + j) b
      → Each Q i (set bs j b)
  Each-set i j [] b e q = tt
  Each-set i zero (c ∷ bs) b e q = let same : i + 0 ≡ i = omega arith in (rw same at q, e.1)
  Each-set i (suc j) (c ∷ bs) b e q =
      let same : i + suc j ≡ suc i + j = omega arith in
      (e.0, Each-set (suc i) j bs b e.1 (rw same at q))

module _ (id : NodeId) where
  -- The loop stops at the first contact, or goes on.
  without-cons :
      (n : NetworkNode) (ns : List NetworkNode) {rest : List NetworkNode}
      → without id (n ∷ ns) ≡ some rest
      → ((n.id ≡ id) × (ns ≡ rest))
        ⊎ ((r : List NetworkNode) × (n.id ≢ id) × (without id ns ≡ some r) × (n ∷ r ≡ rest))
  unfolding without
  without-cons n ns e = elim (key_eq n.id id) [
    | yes p ↦ inl (p, ground arith)
    | no p ↦ elim (Option-cases (without id ns)) [
      | inl missing ↦ absurd (ground arith)
      | inr (r, found) ↦ inr (r, p, found, ground arith)
    ]
  ]

  pub All-without {κ} :
      (P : NetworkNode → Type κ) (b : List NetworkNode) {rest : List NetworkNode}
      → without id b ≡ some rest
      → All P b
      → All P rest
  unfolding without
  All-without P [] e h = absurd (cc)
  All-without P (n ∷ ns) e h = elim (without-cons n ns e) [
    | inl (p, same) ↦ subst (All P) same h.1
    | inr (r, p, found, same) ↦ subst (All P) same (h.0, All-without P ns found h.1)
  ]

  pub length-without :
      (b : List NetworkNode) {rest : List NetworkNode}
      → without id b ≡ some rest
      → length b ≡ suc (length rest)
  unfolding without
  length-without [] e = absurd (cc)
  length-without (n ∷ ns) e = elim (without-cons n ns e) [
    | inl (p, same) ↦ omega (arith, ap {B = ℕ} length same)
    | inr (r, p, found, same) ↦ omega (arith, length-without ns found, ap {B = ℕ} length same)
  ]

  pub Distinct-without :
      (b : List NetworkNode) {rest : List NetworkNode}
      → without id b ≡ some rest
      → Distinct b
      → Distinct rest × All (λ m. m.id ≢ id) rest
  unfolding without
  Distinct-without [] e d = absurd (cc)
  Distinct-without (n ∷ ns) {rest} e d = elim (without-cons n ns e) [
    | inl (p, same) ↦ subst Others same (d.1, rw (← p) d.0)
    | inr (r, p, found, same) ↦
        let (dr, ar) = Distinct-without ns found d.1 in
        subst Others same ((All-without _ ns found d.0, dr), (p, ar))
  ]
    where
      Others : List NetworkNode → Type 0
      Others l = Distinct l × All (λ m. m.id ≢ id) l

  pub without-absent : (b : List NetworkNode) → without id b ≡ none → All (λ m. m.id ≢ id) b
  unfolding without
  without-absent [] e = tt
  without-absent (n ∷ ns) e = elim (key_eq n.id id) [
    | yes p ↦ absurd (ground arith)
    | no p ↦ (p, without-absent ns (ground arith))
  ]

pub Distinct-append :
    (b : List NetworkNode) (n : NetworkNode)
    → Distinct b
    → All (λ m. m.id ≢ n.id) b
    → Distinct (b ++ n ∷ [])
Distinct-append [] n d a = (tt, tt)
Distinct-append (m ∷ ms) n d a =
    (All-append _ ms (n ∷ []) d.0 ((λ e. a.0 (sym e)), tt), Distinct-append ms n d.1 a.1)

pub Fits-append :
    (own : NodeId) (i : ℕ) (b : List NetworkNode) (n : NetworkNode)
    → length b < k
    → All (IsContact own i) b
    → IsContact own i n
    → Fits own i (b ++ n ∷ [])
Fits-append own i b n h c p = record {
  bounded = omega (arith, length-append b (n ∷ []));
  contacts = All-append _ b (n ∷ []) c (p, tt);
}
