-- ===== src/Routing/Closest.antt =====
-- dht/routing_table.go, `FindClosest`: what it returns.
use webrtc_dht.Prelude.{
  ℕ, suc, ◌≤◌, ◌≡◌, refl, sym, ◌∙◌, ap, subst, ◌≢◌, List, [], ◌∷◌, ◌++◌, map, arith, min, length,
  take, drop, All, All-append, All-take, All-drop, length-take, take-append-drop,
}
use webrtc_dht.Prelude.Sort.{
  IsSorted, sort_by, All-sort_by, sort_by-perm, length-sort_by, sort_by-IsSorted, take-IsSorted,
  take-le-drop,
}
use mathlib.Core.List.{flatten, Perm, map-append}
use mathlib.Core.List.Perm
use webrtc_dht.Key.{IsKey, NodeId, get_key_distance}
use webrtc_dht.Types.{NetworkNode}
use webrtc_dht.Routing.{RoutingTable, NodeDistance, measure, find_closest}
use webrtc_dht.Routing.Bucket.{Fits, IsContact, Each}
use webrtc_dht.Routing.Invariant.{IsPlaced}

abbrev pub contacts : RoutingTable → List NetworkNode
contacts rt = flatten rt.buckets

abbrev pub distance_to : NodeId → NetworkNode → ℕ
distance_to target n = get_key_distance n.id target

-- The contacts that `FindClosest` leaves out.
abbrev rest_of : RoutingTable → NodeId → ℕ → List NetworkNode
rest_of rt target count =
    map (λ d. d.node) (drop count (sort_by (λ d. d.distance) (map (measure target) (contacts rt))))

module _ (target : NodeId) where
  node-measure : (ns : List NetworkNode) → map (λ d. d.node) (map (measure target) ns) ≡ ns
  node-measure [] = refl
  node-measure (n ∷ ns) = ap (◌∷◌ n) (node-measure ns)

  -- Each entry of the sorted slice has the distance of its contact.
  abbrev IsMeasured : NodeDistance → Type 0
  IsMeasured d = d.distance ≡ distance_to target d.node

  All-measure : (ns : List NetworkNode) → All IsMeasured (map (measure target) ns)
  All-measure [] = tt
  All-measure (n ∷ ns) = (refl, All-measure ns)

  All-node {κ} :
      (P : NetworkNode → Type κ) (ds : List NodeDistance)
      → All (λ d. P d.node) ds
      → All P (map (λ d. d.node) ds)
  All-node P [] h = tt
  All-node P (d ∷ ds) h = (h.0, All-node P ds h.1)

  All-measured {κ} :
      (P : NetworkNode → Type κ) (ns : List NetworkNode)
      → All P ns
      → All (λ d. P d.node) (map (measure target) ns)
  All-measured P [] h = tt
  All-measured P (n ∷ ns) h = (h.0, All-measured P ns h.1)

  le-node :
      (m : ℕ) (ds : List NodeDistance)
      → All IsMeasured ds
      → All (λ d. m ≤ d.distance) ds
      → All (λ n. m ≤ distance_to target n) (map (λ d. d.node) ds)
  le-node m [] h a = tt
  le-node m (d ∷ ds) h a = (omega (arith, h.0, a.0), le-node m ds h.1 a.1)

  IsSorted-node :
      (ds : List NodeDistance)
      → All IsMeasured ds
      → IsSorted (λ d. d.distance) ds
      → IsSorted (distance_to target) (map (λ d. d.node) ds)
  IsSorted-node [] h s = tt
  IsSorted-node (d ∷ ds) h s =
      (rw (← h.0) (le-node d.distance ds h.1 s.0), IsSorted-node ds h.1 s.1)

  nearer-node :
      (xs ys : List NodeDistance)
      → All IsMeasured xs
      → All IsMeasured ys
      → All (λ x. All (λ y. x.distance ≤ y.distance) ys) xs
      → All
          (λ n. All (λ m. distance_to target n ≤ distance_to target m) (map (λ d. d.node) ys))
          (map (λ d. d.node) xs)
  nearer-node [] ys h i a = tt
  nearer-node (x ∷ xs) ys h i a =
      (rw (← h.0) (le-node x.distance ys i a.0), nearer-node xs ys h.1 i a.1)

-- `FindClosest` returns contacts of the table, as many as asked for or all of them, the nearest
-- first, and none that it leaves out is nearer than one that it returns.
pub record IsClosest (all result : List NetworkNode) (target : NodeId) (count : ℕ) : Type 0 where
  pub others : List NetworkNode
  pub parts : Perm (result ++ others) all
  pub size : length result ≡ min count (length all)
  pub sorted : IsSorted (distance_to target) result
  pub nearest : All (λ n. All (λ m. distance_to target n ≤ distance_to target m) others) result

length-node : (ds : List NodeDistance) → length (map (λ d. d.node) ds) ≡ length ds
length-node [] = refl
length-node (d ∷ ds) = ap suc (length-node ds)

length-measure :
    (target : NodeId) (ns : List NetworkNode) → length (map (measure target) ns) ≡ length ns
length-measure target [] = refl
length-measure target (n ∷ ns) = ap suc (length-measure target ns)

-- Of a table, the nearest contacts to the target are found, nearest first.
pub find_closest-IsClosest :
    (rt : RoutingTable) (target : NodeId) (count : ℕ)
    → IsClosest (contacts rt) (find_closest rt target count) target count
unfolding find_closest
find_closest-IsClosest rt target count = record {
  others = rest_of rt target count;
  parts =
      subst (λ l. Perm l (contacts rt))
        (ap (map node) (sym (take-append-drop count sorted))
          ∙ map-append node (take count sorted) (drop count sorted))
        (subst (Perm (map node sorted)) (node-measure target (contacts rt))
          (Perm.map node (sort_by-perm _ measured)));
  size = omega (
    arith,
    length-node (take count sorted),
    length-take count sorted,
    length-sort_by (λ (d : NodeDistance). d.distance) measured,
    length-measure target (contacts rt),
  );
  sorted =
      IsSorted-node target (take count sorted) (All-take _ count sorted right)
        (take-IsSorted _ count sorted ordered);
  nearest =
      nearer-node target (take count sorted) (drop count sorted) (All-take _ count sorted right)
        (All-drop _ count sorted right) (take-le-drop _ count sorted ordered);
}
  where
    node : NodeDistance → NetworkNode
    node d = d.node

    measured : List NodeDistance
    measured = map (measure target) (contacts rt)

    sorted : List NodeDistance
    sorted = sort_by (λ d. d.distance) measured

    right : All (IsMeasured target) sorted
    right = All-sort_by _ _ measured (All-measure target (contacts rt))

    ordered : IsSorted (λ d. d.distance) sorted
    ordered = sort_by-IsSorted _ measured

-- What holds of every contact of the table holds of what is found.
pub All-find_closest {κ} :
    (P : NetworkNode → Type κ) (rt : RoutingTable) (target : NodeId) (count : ℕ)
    → All P (contacts rt)
    → All P (find_closest rt target count)
unfolding find_closest
All-find_closest P rt target count h = All-node target P _ (
    All-take _ count _
      (All-sort_by _ _ (map (measure target) (contacts rt)) (All-measured target P _ h)))

Each-contacts :
    (own : NodeId) (i : ℕ) (bs : List (List NetworkNode))
    → Each (Fits own) i bs
    → All (λ n. IsKey n.id × (own ≢ n.id)) (flatten bs)
unfolding flatten
Each-contacts own i [] e = tt
Each-contacts own i (b ∷ bs) e =
    All-append _ b (flatten bs) (forget b e.0.contacts) (Each-contacts own (suc i) bs e.1)
  where
    forget :
        (ns : List NetworkNode) → All (IsContact own i) ns → All (λ n. IsKey n.id × (own ≢ n.id)) ns
    forget [] h = tt
    forget (n ∷ ns) h = ((h.0.is_key, h.0.foreign), forget ns h.1)

-- The contacts of a table have keys, and the table's own identifier is not among them.
pub IsPlaced-contacts :
    (rt : RoutingTable) → IsPlaced rt → All (λ n. IsKey n.id × (rt.node_id ≢ n.id)) (contacts rt)
IsPlaced-contacts rt v = Each-contacts rt.node_id 0 rt.buckets v.each
