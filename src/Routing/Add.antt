-- ===== src/Routing/Add.antt =====
-- dht/routing_table.go, `Add`: the part after the ping, and the whole of it where no other
-- goroutine comes between.
use webrtc_dht.Prelude.{
  ℕ, ◌≤◌, ◌<◌, ◌≡◌, refl, ◌∙◌, subst, ◌≢◌, Bool, true, false, Option, some, List, [], ◌∷◌, ◌++◌,
  arith, if◌then◌else◌, eq_of_some, length, get_or, All,
}
use webrtc_dht.Key.{NodeId}
use webrtc_dht.Types.{NetworkNode}
use webrtc_dht.Routing.{
  k, RoutingTable, Pending, bucket_index, without, add_locked, add_resume, add,
}
use webrtc_dht.Routing.Cases.{add_locked_cases, add_resume_cases, add_cases}
use webrtc_dht.Routing.Bucket.{
  IsContact, Fits, IsBucket, All-without, length-without, Distinct-without, without-absent,
  Distinct-append, Fits-append,
}
use webrtc_dht.Routing.Invariant.{
  IsPlaced, IsValid, IsPeer, Buckets-get, Buckets-set, new_contact, index_in_range,
  add_locked-IsValid, IsValid-IsPlaced,
}

-- What an `Add` in flight remembers: two contacts that fit in the bucket.
pub record IsPending (own : NodeId) (p : Pending) : Type 0 where
  pub in_range : p.index < 160
  pub old : IsContact own p.index p.lrs
  pub fresh : IsContact own p.index p.node

-- The contact that the second part of an `Add` puts at the end of the bucket.
abbrev pub chosen : Pending → Bool → NetworkNode
chosen p alive = if alive then p.lrs else p.node

chosen-IsContact :
    (own : NodeId) (p : Pending) (alive : Bool)
    → IsPending own p
    → IsContact own p.index (chosen p alive)
chosen-IsContact own p true h = h.old
chosen-IsContact own p false h = h.fresh

resume-Fits :
    (rt : RoutingTable) (p : Pending) (alive : Bool) (rest : List NetworkNode)
    → Fits rt.node_id p.index (get_or rt.buckets p.index [])
    → IsPending rt.node_id p
    → without p.lrs.id (get_or rt.buckets p.index []) ≡ some rest
    → Fits rt.node_id p.index (rest ++ chosen p alive ∷ [])
resume-Fits rt p alive rest here q found =
    Fits-append rt.node_id p.index rest (chosen p alive)
      (omega (arith, length-without p.lrs.id _ found, here.bounded))
      (All-without p.lrs.id _ _ found here.contacts) (chosen-IsContact rt.node_id p alive q)

-- The part of `Add` after the ping, at any later time, keeps every contact in its place.
pub add_resume-IsPlaced :
    (rt : RoutingTable) (p : Pending) (alive : Bool)
    → IsPlaced rt
    → IsPending rt.node_id p
    → IsPlaced (add_resume rt p alive)
add_resume-IsPlaced rt p alive v q =
    add_resume_cases IsPlaced rt p alive (λ _. v)
      λ rest found.
        Buckets-set Fits v p.index (rest ++ chosen p alive ∷ [])
          (resume-Fits rt p alive rest (Buckets-get Fits v p.index q.in_range) q found)

-- It keeps the table valid if the new contact is still missing from the bucket.
pub add_resume-IsValid :
    (rt : RoutingTable) (p : Pending) (alive : Bool)
    → IsValid rt
    → IsPending rt.node_id p
    → All (λ m. m.id ≢ p.node.id) (get_or rt.buckets p.index [])
    → IsValid (add_resume rt p alive)
add_resume-IsValid rt p alive v q absent =
    add_resume_cases IsValid rt p alive (λ _. v)
      λ rest found.
        let here = Buckets-get IsBucket v p.index q.in_range in
        let (d, a) = Distinct-without p.lrs.id _ found here.distinct in
        Buckets-set IsBucket v p.index (rest ++ chosen p alive ∷ []) (record {
          fits = resume-Fits rt p alive rest here.fits q found;
          distinct =
              Distinct-append rest (chosen p alive) d
                (other rest a (All-without p.lrs.id _ _ found absent) alive);
        })
  where
    other :
        (rest : List NetworkNode)
        → All (λ m. m.id ≢ p.lrs.id) rest
        → All (λ m. m.id ≢ p.node.id) rest
        → (b : Bool) → All (λ m. m.id ≢ (chosen p b).id) rest
    other rest a b true = a
    other rest a b false = b

-- What is known of an `Add` that waits for a ping: the new contact is missing from its bucket, which
-- is full, and the pinged contact is the first of it.
pub record Waits (rt : RoutingTable) (node : NetworkNode) (p : Pending) : Type 0 where
  pub pending : IsPending rt.node_id p
  pub new : p.node ≡ node
  pub bucket : p.index ≡ bucket_index rt node.id
  pub absent : All (λ m. m.id ≢ node.id) (get_or rt.buckets p.index [])
  pub full : k ≤ length (get_or rt.buckets p.index [])
  pub first : (rest : List NetworkNode) × (get_or rt.buckets p.index [] ≡ p.lrs ∷ rest)

-- So far such an `Add` has not changed the table.
pub add_locked-Waits :
    (rt : RoutingTable) (node : NetworkNode) (p : Pending)
    → IsPlaced rt
    → IsPeer node
    → (add_locked rt node).1 ≡ some p
    → ((add_locked rt node).0 ≡ rt) × Waits rt node p
add_locked-Waits rt node p v peer =
    add_locked_cases Goal rt node (λ _ e. absurd (cc)) (λ _ _ _ e. absurd (cc))
      (λ _ _ _ e. absurd (cc))
      λ foreign missing full lrs rest e q.
        subst (λ r. (rt ≡ rt) × Waits rt node r) (eq_of_some q)
          (
            refl,
            record {
              pending = record {
                in_range = in_range;
                old = (subst (All (IsContact rt.node_id i)) e here.contacts).0;
                fresh = new_contact rt node v.is_key peer foreign;
              };
              new = refl;
              bucket = refl;
              absent = without-absent node.id _ missing;
              full = full;
              first = (rest, e);
            },
          )
  where
    Goal : RoutingTable × Option Pending → Type 0
    Goal r = r.1 ≡ some p → (r.0 ≡ rt) × Waits rt node p

    i : ℕ
    i = bucket_index rt node.id

    in_range : i < 160
    in_range = index_in_range rt node v.is_key peer

    here : Fits rt.node_id i (get_or rt.buckets i [])
    here = Buckets-get Fits v i in_range

-- `Add` keeps the table valid, whatever the ping answers.
pub add-IsValid :
    {W : Type 0} (ping : W → NetworkNode → W × Bool) (w : W) (rt : RoutingTable)
    (node : NetworkNode)
    → IsValid rt
    → IsPeer node
    → IsValid (add ping w rt node).1
add-IsValid ping w rt node v peer =
    add_cases IsValid ping w rt node (add_locked-IsValid rt node v peer) λ p alive e.
      let (same, h) = add_locked-Waits rt node p (IsValid-IsPlaced v) peer e in
      rw same (add_resume-IsValid rt p alive v h.pending (rw h.new h.absent))

-- Neither part of `Add` changes whose table it is.
pub add_locked-node_id :
    (rt : RoutingTable) (node : NetworkNode) → (add_locked rt node).0.node_id ≡ rt.node_id
add_locked-node_id rt node =
    add_locked_cases (λ r. r.0.node_id ≡ rt.node_id) rt node (λ _. refl) (λ _ _ _. refl)
      (λ _ _ _. refl) (λ _ _ _ _ _ _. refl)

pub add_resume-node_id :
    (rt : RoutingTable) (p : Pending) (alive : Bool) → (add_resume rt p alive).node_id ≡ rt.node_id
add_resume-node_id rt p alive =
    add_resume_cases (λ r. r.node_id ≡ rt.node_id) rt p alive (λ _. refl) (λ _ _. refl)

-- Nor does `Add` change whose table it is.
pub add-node_id :
    {W : Type 0} (ping : W → NetworkNode → W × Bool) (w : W) (rt : RoutingTable)
    (node : NetworkNode)
    → (add ping w rt node).1.node_id ≡ rt.node_id
add-node_id ping w rt node =
    add_cases (λ r. r.node_id ≡ rt.node_id) ping w rt node (add_locked-node_id rt node)
      λ p alive _. add_resume-node_id _ p alive ∙ add_locked-node_id rt node
