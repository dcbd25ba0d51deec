-- ===== src/Routing/Invariant.antt =====
-- dht/routing_table.go: what every table holds that the operations build.
use webrtc_dht.Prelude.{
  ℕ, zero, suc, ◌+◌, ◌<◌, ◌≡◌, refl, ◌∙◌, ◌≢◌, List, [], ◌∷◌, ◌++◌, arith, length, get_or, set,
  replicate, length-set, length-replicate,
}
use webrtc_dht.Prelude.BitLen.{bit_len-le}
use webrtc_dht.Key.{NodeId, IsKey, get_key_distance, get_key_distance-lt}
use webrtc_dht.Types.{NetworkNode}
use webrtc_dht.Routing.{RoutingTable, new_routing_table, index_for, bucket_index, add_locked}
use webrtc_dht.Routing.Cases.{add_locked_cases}
use webrtc_dht.Routing.Bucket.{
  IsContact, Fits, IsBucket, Each, Each-get, Each-set, All-without, length-without,
  Distinct-without, without-absent, Distinct-append, Fits-append,
}

-- A bucket index is in the range of the array.
pub index_for-lt : {a b : NodeId} → IsKey a → IsKey b → index_for a b < 160
unfolding index_for
index_for-lt {a} {b} p q =
    ground (arith, bit_len-le 160 (get_key_distance a b) (get_key_distance-lt p q))

-- The table has its 160 buckets, and each has the property.
pub record Buckets (Q : NodeId → ℕ → List NetworkNode → Type 0) (rt : RoutingTable) : Type 0 where
  pub is_key : IsKey rt.node_id
  pub count : length rt.buckets ≡ 160
  pub each : Each (Q rt.node_id) 0 rt.buckets

-- Every bucket has at most `k` contacts; each is a key other than the table's own, and stands in
-- the bucket of its distance.
abbrev pub IsPlaced : RoutingTable → Type 0
IsPlaced = Buckets Fits

-- Besides, no identifier stands twice in a bucket.
abbrev pub IsValid : RoutingTable → Type 0
IsValid = Buckets IsBucket

Each-replicate :
    (Q : ℕ → List NetworkNode → Type 0) (i n : ℕ) → ((j : ℕ) → Q j []) → Each Q i (replicate n [])
Each-replicate Q i zero q = tt
Each-replicate Q i (suc n) q = (q i, Each-replicate Q (suc i) n q)

empty-IsBucket : (own : NodeId) (i : ℕ) → IsBucket own i []
empty-IsBucket own i = record {
  fits = record { bounded = omega arith; contacts = tt };
  distinct = tt;
}

pub new_routing_table-IsValid : {id : NodeId} → IsKey id → IsValid (new_routing_table id)
unfolding new_routing_table
new_routing_table-IsValid {id} p = record {
  is_key = p;
  count = length-replicate {A = List NetworkNode} 160 [];
  each = Each-replicate (IsBucket id) 0 160 (empty-IsBucket id);
}

module _ (Q : NodeId → ℕ → List NetworkNode → Type 0) {rt : RoutingTable} (v : Buckets Q rt) where
  pub Buckets-get : (i : ℕ) → i < 160 → Q rt.node_id i (get_or rt.buckets i [])
  Buckets-get i h =
      let zero_add : 0 + i ≡ i = omega arith in
      rw zero_add at (Each-get (Q rt.node_id) 0 i rt.buckets v.each (omega (arith, v.count)))

  pub Buckets-set :
      (i : ℕ) (b : List NetworkNode)
      → Q rt.node_id i b
      → Buckets Q (record rt { buckets = set rt.buckets i b })
  Buckets-set i b q =
      let zero_add : 0 + i ≡ i = omega arith in
      record {
        is_key = v.is_key;
        count = length-set rt.buckets i b ∙ v.count;
        each = Each-set (Q rt.node_id) 0 i rt.buckets b v.each (rw zero_add q);
      }

pub IsValid-IsPlaced : {rt : RoutingTable} → IsValid rt → IsPlaced rt
IsValid-IsPlaced {rt} v = record {
  is_key = v.is_key;
  count = v.count;
  each = all_fit 0 rt.buckets v.each;
}
  where
    all_fit :
        (i : ℕ) (bs : List (List NetworkNode))
        → Each (IsBucket rt.node_id) i bs
        → Each (Fits rt.node_id) i bs
    all_fit i [] e = tt
    all_fit i (b ∷ bs) e = (e.0.fits, all_fit (suc i) bs e.1)

-- Contacts that a table may take: their identifiers are keys.
abbrev pub IsPeer : NetworkNode → Type 0
IsPeer n = IsKey n.id

module _ (rt : RoutingTable) (node : NetworkNode) (own : IsKey rt.node_id) (p : IsPeer node) where
  pub new_contact : rt.node_id ≢ node.id → IsContact rt.node_id (bucket_index rt node.id) node
  new_contact h = record { is_key = p; foreign = h; placed = refl }

  pub index_in_range : bucket_index rt node.id < 160
  index_in_range = index_for-lt own p

-- The part of `Add` before the ping keeps the table valid.
pub add_locked-IsValid :
    (rt : RoutingTable) (node : NetworkNode)
    → IsValid rt
    → IsPeer node
    → IsValid (add_locked rt node).0
add_locked-IsValid rt node v p =
    add_locked_cases (λ r. IsValid r.0) rt node (λ _. v)
      (λ h rest found.
        let (d, a) = Distinct-without node.id bucket found here.distinct in
        Buckets-set IsBucket v i (rest ++ node ∷ []) (record {
          fits =
              Fits-append rt.node_id i rest node
                (omega (arith, length-without node.id bucket found, here.fits.bounded))
                (All-without node.id _ bucket found here.fits.contacts)
                (new_contact rt node v.is_key p h);
          distinct = Distinct-append rest node d a;
        }))
      (λ h absent room. Buckets-set IsBucket v i (bucket ++ node ∷ []) (record {
        fits =
            Fits-append rt.node_id i bucket node room here.fits.contacts
              (new_contact rt node v.is_key p h);
        distinct = Distinct-append bucket node here.distinct (without-absent node.id bucket absent);
      }))
      (λ _ _ _ _ _ _. v)
  where
    i : ℕ
    i = bucket_index rt node.id

    bucket : List NetworkNode
    bucket = get_or rt.buckets i []

    here : IsBucket rt.node_id i bucket
    here = Buckets-get IsBucket v i (index_in_range rt node v.is_key p)
