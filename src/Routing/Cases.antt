-- ===== src/Routing/Cases.antt =====
-- dht/routing_table.go, `Add`: its branches, each as a rule that needs no unfolding.
use webrtc_dht.Prelude.{
  ℕ, ◌≤◌, ◌<◌, ◌≡◌, refl, ◌≢◌, Bool, false, Option, none, some, List, [], ◌∷◌, ◌++◌, arith, if_pos,
  if_neg, ltb, ltb→lt, if◌then◌else◌, Bool-cases, Option-cases, inl, inr, length, get_or, set,
}
use webrtc_dht.Key.{key_eq}
use webrtc_dht.Types.{NetworkNode}
use webrtc_dht.Routing.{
  k, RoutingTable, Pending, bucket_index, without, full_bucket, add_locked, add_resume, add,
}

full_bucket_lem {ℓ} :
    (P : RoutingTable × Option Pending → Type ℓ) (rt : RoutingTable) (i : ℕ)
    (bucket : List NetworkNode) (node : NetworkNode)
    → k ≤ length bucket
    → ((lrs : NetworkNode) (rest : List NetworkNode)
        → bucket ≡ lrs ∷ rest
        → P (rt, some (record { index = i; lrs = lrs; node = node })))
    → P (full_bucket rt i bucket node)
unfolding full_bucket
full_bucket_lem P rt i [] node h f = absurd (omega arith)
full_bucket_lem P rt i (lrs ∷ rest) node h f = f lrs rest refl

module _ {ℓ} (P : RoutingTable × Option Pending → Type ℓ) (rt : RoutingTable)
    (node : NetworkNode) where
  abbrev index : ℕ
  index = bucket_index rt node.id

  abbrev bucket : List NetworkNode
  bucket = get_or rt.buckets index []

  pub add_locked_cases :
      (rt.node_id ≡ node.id → P (rt, none))
      → (rt.node_id ≢ node.id
          → (rest : List NetworkNode) → without node.id bucket ≡ some rest
          → P (record rt { buckets = set rt.buckets index (rest ++ node ∷ []) }, none))
      → (rt.node_id ≢ node.id
          → without node.id bucket ≡ none
          → length bucket < k
          → P (record rt { buckets = set rt.buckets index (bucket ++ node ∷ []) }, none))
      → (rt.node_id ≢ node.id
          → without node.id bucket ≡ none
          → k ≤ length bucket
          → (lrs : NetworkNode) (rest : List NetworkNode) → bucket ≡ lrs ∷ rest
          → P (rt, some (record { index = index; lrs = lrs; node = node })))
      → P (add_locked rt node)
  unfolding add_locked
  add_locked_cases own known room full = elim (key_eq rt.node_id node.id) [
    | yes p ↦ rw (if_pos _ p) (own p)
    | no p ↦ rw (if_neg _ p) (elim (Option-cases (without node.id bucket)) [
      | inr (rest, e) ↦ rw e (known p rest e)
      | inl e ↦ rw e (elim (Bool-cases (ltb (length bucket) k)) [
        | inl h ↦ rw h (room p e (ltb→lt _ _ h))
        | inr h ↦
            let le : k ≤ length bucket = ground arith in
            rw h (full_bucket_lem P rt index bucket node le (full p e le))
      ])
    ])
  ]

-- What `add_resume` does, with its parts.
module _ {ℓ} (P : RoutingTable → Type ℓ) (rt : RoutingTable) (p : Pending) (alive : Bool) where
  pub add_resume_cases :
      (without p.lrs.id (get_or rt.buckets p.index []) ≡ none → P rt)
      → ((rest : List NetworkNode)
          → without p.lrs.id (get_or rt.buckets p.index []) ≡ some rest
          → P (record rt {
            buckets = set rt.buckets p.index (rest ++ (if alive then p.lrs else p.node) ∷ []);
          }))
      → P (add_resume rt p alive)
  unfolding add_resume
  add_resume_cases gone found =
      elim (Option-cases (without p.lrs.id (get_or rt.buckets p.index []))) [
        | inl e ↦ rw (e, add_resume) (gone e)
        | inr (rest, e) ↦ rw (e, add_resume) (found rest e)
      ]

-- The whole of `Add` is its first part, and its second part if a ping was due.
module _ {ℓ} (P : RoutingTable → Type ℓ) {W : Type 0} (ping : W → NetworkNode → W × Bool) (w : W)
    (rt : RoutingTable) (node : NetworkNode) where
  pub add_cases :
      P (add_locked rt node).0
      → ((p : Pending) (alive : Bool)
          → (add_locked rt node).1 ≡ some p
          → P (add_resume (add_locked rt node).0 p alive))
      → P (add ping w rt node).1
  unfolding add
  add_cases first second = elim (Option-cases (add_locked rt node).1) [
    | inl e ↦ rw (e, add) first
    | inr (p, e) ↦
        rw (e, add)
          (elim (Bool-cases (add_locked rt node).0.has_ping) [
            | inl h ↦ rw h (second p (ping w p.lrs).1 e)
            | inr h ↦ rw h (second p false e)
          ])
  ]
