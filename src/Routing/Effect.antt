-- ===== src/Routing/Effect.antt =====
-- dht/routing_table.go, `Add`: its effect on the buckets, against the least-recently-seen rule of
-- Kademlia stated on one bucket.
use webrtc_dht.Prelude.{
  ℕ, suc, ◌≤◌, ◌≡◌, refl, sym, ◌∙◌, ap, ◌≢◌, Bool, false, ◌&&◌, Option, none, some, List, [], ◌∷◌,
  ◌++◌, arith, ltb, lt→ltb, if◌then◌else◌, length, get_or, set, if_pos,
}
use webrtc_dht.Key.{key_eq}
use webrtc_dht.Types.{NetworkNode}
use webrtc_dht.Routing.{
  k, RoutingTable, Pending, bucket_index, without, add_locked, add_resume, add,
}
use webrtc_dht.Routing.Cases.{add_locked_cases}

-- The oldest contact stays if it is alive; then the new one is turned away.
rotate : List NetworkNode → NetworkNode → (NetworkNode → Bool) → List NetworkNode
rotate [] node alive = []
rotate (oldest ∷ rest) node alive = rest ++ (if alive oldest then oldest else node) ∷ []

-- The rule for one bucket: a known contact moves to the end, a new one is put there if there is
-- room, and in a full bucket the oldest contact is asked.
pub see : List NetworkNode → NetworkNode → (NetworkNode → Bool) → List NetworkNode
unfolding rotate
see bucket node alive = elim (without node.id bucket) [
  | some rest ↦ rest ++ node ∷ []
  | none ↦ if ltb (length bucket) k then bucket ++ node ∷ [] else rotate bucket node alive
]

see-full :
    (bucket : List NetworkNode) (oldest : NetworkNode) (rest : List NetworkNode)
    (node : NetworkNode) (alive : NetworkNode → Bool)
    → bucket ≡ oldest ∷ rest
    → without node.id bucket ≡ none
    → k ≤ length bucket
    → see bucket node alive ≡ rest ++ (if alive oldest then oldest else node) ∷ []
unfolding see
see-full [] oldest rest node alive e absent full = absurd (cc)
see-full (n ∷ ns) oldest rest node alive e absent full =
    let h : n ≡ oldest = cc in
    let t : ns ≡ rest = cc in
    let no_room : ltb (suc (length ns)) k ≡ false = ground arith in
    rw (absent, see, no_room, h, t) refl

module _ {W : Type 0} (ping : W → NetworkNode → W × Bool) (w : W) (rt : RoutingTable) where
  -- Whether a contact counts as alive.
  abbrev pub responds : NetworkNode → Bool
  responds n = rt.has_ping && (ping w n).1

  without_first : (n : NetworkNode) (ns : List NetworkNode) → without n.id (n ∷ ns) ≡ some ns
  unfolding without
  without_first n ns = if_pos (key_eq n.id n.id) refl _ _

  add-full :
      (node lrs : NetworkNode) (rest : List NetworkNode) (i : ℕ)
      → get_or rt.buckets i [] ≡ lrs ∷ rest
      → add_locked rt node ≡ (rt, some (record { index = i; lrs = lrs; node = node }))
      → (add ping w rt node).1 ≡ record rt {
        buckets = set rt.buckets i (rest ++ (if responds lrs then lrs else node) ∷ []);
      }
  unfolding add add_resume
  add-full node lrs rest i e q =
      let found : without lrs.id (get_or rt.buckets i []) ≡ some rest =
        rw e (without_first lrs rest) in
      ground (arith, q, found)

  -- `Add` of a contact other than the table's own changes one bucket, as the rule says.
  pub add-see :
      (node : NetworkNode)
      → rt.node_id ≢ node.id
      → let i = bucket_index rt node.id in
        (add ping w rt node).1
        ≡ record rt { buckets = set rt.buckets i (see (get_or rt.buckets i []) node responds) }
  unfolding see add rotate
  add-see node foreign =
      add_locked_cases Goal rt node (λ own. absurd (foreign own))
        (λ _ rest found q. ground (arith, found, q))
        (λ _ absent room q. ground (arith, absent, lt→ltb _ _ room, q))
        (λ _ absent full lrs rest e q.
          add-full node lrs rest i e q
          ∙ ap (λ b. record rt { buckets = set rt.buckets i b })
              (sym (see-full _ lrs rest node responds e absent full)))
        refl
    where
      i : ℕ
      i = bucket_index rt node.id

      Goal : RoutingTable × Option Pending → Type 0
      Goal r =
          add_locked rt node ≡ r
          → (add ping w rt node).1
            ≡ record rt { buckets = set rt.buckets i (see (get_or rt.buckets i []) node responds) }
