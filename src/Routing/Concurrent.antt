-- ===== src/Routing/Concurrent.antt =====
-- dht/routing_table.go: several goroutines in `Add` at once. A goroutine that waits for a ping
-- holds no lock, so any other may run in between; a schedule is a sequence of the steps below.
use webrtc_dht.Prelude.{
  ℕ, sym, subst, Bool, none, some, List, [], ◌∷◌, ◌++◌, arith, Option-cases, inl, inr, get_or, All,
  All-append, All-append_left, All-append_right,
}
use webrtc_dht.Types.{NetworkNode}
use webrtc_dht.Routing.{RoutingTable, Pending, bucket_index, add_locked, add_resume}
use webrtc_dht.Routing.Cases.{add_locked_cases}
use webrtc_dht.Routing.Bucket.{Fits, Fits-append, All-without, length-without}
use webrtc_dht.Routing.Invariant.{
  IsPlaced, IsPeer, Buckets-get, Buckets-set, new_contact, index_in_range,
}
use webrtc_dht.Routing.Add.{
  IsPending, add_locked-node_id, add_resume-node_id, add_resume-IsPlaced, add_locked-Waits,
}

-- The table, and the `Add`s that wait for a ping.
pub record Shared : Type 0 where
  pub table : RoutingTable
  pub waiting : List Pending

-- A goroutine enters `Add`, and either returns or starts a ping.
pub enter : Shared → NetworkNode → Shared
enter s node = elim (add_locked s.table node).1 [
  | none ↦ record { table = (add_locked s.table node).0; waiting = s.waiting }
  | some p ↦ record { table = (add_locked s.table node).0; waiting = p ∷ s.waiting }
]

pub data Step : Shared → Shared → Type 0 where
  enters : (s : Shared) (node : NetworkNode) → IsPeer node → Step s (enter s node)
  -- any of the waiting pings is answered, or fails
  answers :
      (rt : RoutingTable) (before : List Pending) (p : Pending) (after : List Pending)
      (alive : Bool)
      → Step
          (record { table = rt; waiting = before ++ p ∷ after })
          (record { table = add_resume rt p alive; waiting = before ++ after })

pub data Reach (s : Shared) : Shared → Type 0 where
  here : Reach s s
  next : {t u : Shared} → Reach s t → Step t u → Reach s u

pub record IsSafe (s : Shared) : Type 0 where
  pub placed : IsPlaced s.table
  pub pending : All (IsPending s.table.node_id) s.waiting

add_locked-IsPlaced :
    (rt : RoutingTable) (node : NetworkNode)
    → IsPlaced rt
    → IsPeer node
    → IsPlaced (add_locked rt node).0
add_locked-IsPlaced rt node v p =
    add_locked_cases (λ r. IsPlaced r.0) rt node (λ _. v)
      (λ h rest found. Buckets-set Fits v i (rest ++ node ∷ []) (
        Fits-append rt.node_id i rest node
          (omega (arith, length-without node.id _ found, old.bounded))
          (All-without node.id _ _ found old.contacts) (new_contact rt node v.is_key p h)))
      (λ h absent room.
        Buckets-set Fits v i _
          (Fits-append rt.node_id i _ node room old.contacts (new_contact rt node v.is_key p h)))
      (λ _ _ _ _ _ _. v)
  where
    i : ℕ
    i = bucket_index rt node.id

    old : Fits rt.node_id i (get_or rt.buckets i [])
    old = Buckets-get Fits v i (index_in_range rt node v.is_key p)

enter-IsSafe : (s : Shared) (node : NetworkNode) → IsPeer node → IsSafe s → IsSafe (enter s node)
unfolding enter
enter-IsSafe s node peer v = elim (Option-cases (add_locked s.table node).1) [
  | inl e ↦ rw (e, enter) (record { placed = placed; pending = still s.waiting v.pending })
  | inr (p, e) ↦
      rw (e, enter)
        (record {
          placed = placed;
          pending =
              still (p ∷ s.waiting)
                ((add_locked-Waits s.table node p v.placed peer e).1.pending, v.pending);
        })
]
  where
    placed : IsPlaced (add_locked s.table node).0
    placed = add_locked-IsPlaced s.table node v.placed peer

    still :
        (ps : List Pending)
        → All (IsPending s.table.node_id) ps
        → All (IsPending (add_locked s.table node).0.node_id) ps
    still ps h = subst (λ o. All (IsPending o) ps) (sym (add_locked-node_id s.table node)) h

pub Step-IsSafe : {s t : Shared} → Step s t → IsSafe s → IsSafe t
Step-IsSafe (enters s node peer) v = enter-IsSafe s node peer v
Step-IsSafe (answers rt before p after alive) v =
    let rest = All-append_right _ before (p ∷ after) v.pending in
    record {
      placed = add_resume-IsPlaced rt p alive v.placed rest.0;
      pending =
          rw (add_resume-node_id rt p alive)
            (All-append _ before after (All-append_left _ before (p ∷ after) v.pending) rest.1);
    }

-- Under every interleaving of calls of `Add`, whatever their pings answer, each bucket keeps at
-- most `k` contacts, each in the bucket of its distance, and none with the table's own identifier.
pub Reach-IsSafe : {s t : Shared} → Reach s t → IsSafe s → IsSafe t
Reach-IsSafe here v = v
Reach-IsSafe (next r st) v = Step-IsSafe st (Reach-IsSafe r v)
