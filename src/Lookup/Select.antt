-- ===== src/Lookup/Select.antt =====
-- dht/logic.go, `iterativeSearch`: which nodes a round asks, and how many are left to ask.
use webrtc_dht.Prelude.{
  ℕ, zero, suc, ◌≤◌, ◌<◌, ◌≡◌, refl, ◌≢◌, true, false, ◌||◌, List, [], ◌∷◌, ◌++◌, arith, if_pos,
  if_neg, if◌then◌else◌, Bool-cases, inl, inr, length, All, Occurs,
}
use webrtc_dht.Prelude.Sort.{IsSorted}
use webrtc_dht.Key.{NodeId, key_eq}
use webrtc_dht.Types.{NetworkNode}
use webrtc_dht.Lookup.{is_visited, without_self, select}

abbrev pub IsUnvisited : List NodeId → NetworkNode → Type 0
IsUnvisited visited n = is_visited visited n.id ≡ false

-- A round asks only nodes that were not asked before.
pub select-IsUnvisited :
    (room : ℕ) (visited : List NodeId) (ns : List NetworkNode)
    → All (IsUnvisited visited) (select room visited ns)
unfolding select
select-IsUnvisited zero visited ns = tt
select-IsUnvisited (suc room) visited [] = tt
select-IsUnvisited (suc room) visited (n ∷ ns) = elim (Bool-cases (is_visited visited n.id)) [
  | inl old ↦ rw old (select-IsUnvisited (suc room) visited ns)
  | inr new ↦ rw new (new, select-IsUnvisited room visited ns)
]

pub All-select {κ} :
    (P : NetworkNode → Type κ) (room : ℕ) (visited : List NodeId) (ns : List NetworkNode)
    → All P ns
    → All P (select room visited ns)
unfolding select
All-select P zero visited ns h = tt
All-select P (suc room) visited [] h = tt
All-select P (suc room) visited (n ∷ ns) h = elim (Bool-cases (is_visited visited n.id)) [
  | inl old ↦ rw old (All-select P (suc room) visited ns h.1)
  | inr new ↦ rw new (h.0, All-select P room visited ns h.1)
]

pub length-select-le :
    (room : ℕ) (visited : List NodeId) (ns : List NetworkNode)
    → length (select room visited ns) ≤ room
unfolding select
length-select-le zero visited ns = omega arith
length-select-le (suc room) visited [] = omega arith
length-select-le (suc room) visited (n ∷ ns) =
    ground (arith, length-select-le (suc room) visited ns, length-select-le room visited ns)

-- If a round would ask nobody, every node was asked.
pub select-eq-nil :
    (room : ℕ) (visited : List NodeId) (ns : List NetworkNode)
    → select (suc room) visited ns ≡ []
    → All (λ n. is_visited visited n.id ≡ true) ns
unfolding select
select-eq-nil room visited [] e = tt
select-eq-nil room visited (n ∷ ns) e = elim (Bool-cases (is_visited visited n.id)) [
  | inl old ↦ (old, select-eq-nil room visited ns (ground arith))
  | inr new ↦ absurd (ground arith)
]

pub All-without_self {κ} :
    (P : NetworkNode → Type κ) (own : NodeId) (ns : List NetworkNode)
    → All P ns
    → All (λ n. P n × (n.id ≢ own)) (without_self own ns)
unfolding without_self
All-without_self P own [] h = tt
All-without_self P own (n ∷ ns) h = elim (key_eq n.id own) [
  | yes p ↦ rw (if_pos _ p) (All-without_self P own ns h.1)
  | no p ↦ rw (if_neg _ p) ((h.0, p), All-without_self P own ns h.1)
]

pub is_visited-append :
    (xs ys : List NodeId) (id : NodeId)
    → is_visited (xs ++ ys) id ≡ (is_visited xs id || is_visited ys id)
unfolding is_visited
is_visited-append [] ys id = refl
is_visited-append (x ∷ xs) ys id = ground (arith, is_visited-append xs ys id)

is_visited_head : (id : NodeId) (vs : List NodeId) → is_visited (id ∷ vs) id ≡ true
unfolding is_visited
is_visited_head id vs = if_pos (key_eq id id) refl _ _

-- How many of a list of identifiers are not visited.
pub unvisited : List NodeId → List NodeId → ℕ
unvisited visited [] = 0
unvisited visited (u ∷ us) =
    if is_visited visited u then unvisited visited us else suc (unvisited visited us)

pub unvisited-le-length : (visited us : List NodeId) → unvisited visited us ≤ length us
unfolding unvisited
unvisited-le-length visited [] = omega arith
unvisited-le-length visited (u ∷ us) = ground (arith, unvisited-le-length visited us)

unvisited_mono :
    (more visited us : List NodeId) → unvisited (more ++ visited) us ≤ unvisited visited us
unfolding unvisited
unvisited_mono more visited [] = omega arith
unvisited_mono more visited (u ∷ us) =
    ground (arith, unvisited_mono more visited us, is_visited-append more visited u)

-- Asking a new node leaves fewer to ask.
pub unvisited-lt :
    (id : NodeId) (more visited us : List NodeId)
    → Occurs id us
    → is_visited visited id ≡ false
    → unvisited (id ∷ more ++ visited) us < unvisited visited us
unfolding unvisited
unvisited-lt id more visited [] o h = elim o [ ]
unvisited-lt id more visited (u ∷ us) (inl same) h =
    let new : is_visited (id ∷ more ++ visited) u ≡ true =
      rw same (is_visited_head id (more ++ visited)) in
    let old : is_visited visited u ≡ false = rw same h in
    rw (new, old) (omega (arith, unvisited_mono (id ∷ more) visited us))
unvisited-lt id more visited (u ∷ us) (inr o) h =
    ground (arith, unvisited-lt id more visited us o h, is_visited-append (id ∷ more) visited u)

pub All-first {κ} :
    (P Q : NetworkNode → Type κ) (ns : List NetworkNode) → All (λ n. P n × Q n) ns → All P ns
All-first P Q [] h = tt
All-first P Q (n ∷ ns) h = (h.0.0, All-first P Q ns h.1)

pub length-without_self-le :
    (own : NodeId) (ns : List NetworkNode) → length (without_self own ns) ≤ length ns
unfolding without_self
length-without_self-le own [] = omega arith
length-without_self-le own (n ∷ ns) = ground (arith, length-without_self-le own ns)

pub without_self-IsSorted :
    (f : NetworkNode → ℕ) (own : NodeId) (ns : List NetworkNode)
    → IsSorted f ns
    → IsSorted f (without_self own ns)
unfolding without_self
without_self-IsSorted f own [] h = tt
without_self-IsSorted f own (n ∷ ns) h = elim (key_eq n.id own) [
  | yes p ↦ rw (if_pos _ p) (without_self-IsSorted f own ns h.1)
  | no p ↦ rw (if_neg _ p) (
    All-first _ _ (without_self own ns) (All-without_self (λ m. f n ≤ f m) own ns h.0),
    without_self-IsSorted f own ns h.1,
  )
]
