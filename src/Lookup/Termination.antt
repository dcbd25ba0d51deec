-- ===== src/Lookup/Termination.antt =====
-- dht/logic.go, `iterativeSearch`: the search ends. Each round asks a node that was not asked
-- before, so there are no more rounds than keys.
use webrtc_dht.Prelude.{
  ℕ, zero, suc, ◌^◌, ◌≤◌, ◌<◌, ◌≡◌, refl, ap, subst, ◌≢◌, Bool, Option, some, List, [], ◌∷◌, arith,
  length, All,
}
use webrtc_dht.Prelude.Sort.{IsSorted}
use webrtc_dht.Key.{NodeId}
use webrtc_dht.Types.{NetworkNode, ValueMeta}
use webrtc_dht.Routing.{k, find_closest}
use webrtc_dht.Routing.Invariant.{IsPeer, IsValid-IsPlaced}
use webrtc_dht.Routing.Closest.{
  distance_to, IsPlaced-contacts, All-find_closest, find_closest-IsClosest,
}
use webrtc_dht.Node.{Node}
use webrtc_dht.Node.Laws.{IsNode}
use webrtc_dht.Storage.Files.{Formats}
use webrtc_dht.Transport.{Transport}
use webrtc_dht.Lookup.{
  ids, without_self, Search, Done, Pass, ends, goes_on, run_round, after_round, after_found, pass,
  search_loop, search_from, iterative_search,
}
use webrtc_dht.Lookup.Select.{
  IsUnvisited, select-IsUnvisited, All-select, All-first, All-without_self, length-without_self-le,
  without_self-IsSorted, unvisited, unvisited-lt, unvisited-le-length,
}
use webrtc_dht.Lookup.Rounds.{Answers}
use webrtc_dht.Lookup.Outcome.{
  IsSearch, IsDone, IsPass, pass_cases, pass-IsPass, search_loop-IsDone,
}
use webrtc_dht.Lookup.Universe.{all_keys, length-all_keys, Occurs-all_keys}

module _ (F : Formats) (T : Transport) (V : ValueMeta → Type 0) (answers : Answers T IsPeer V)
    (b : Bool) (target : NodeId) (own : NetworkNode) where
  -- A state in which the search may be.
  abbrev InSearch : Search F T → Type 0
  InSearch = IsSearch F T IsPeer V (λ _ p. p) answers b target own

  -- How many keys are still to ask.
  abbrev left : Search F T → ℕ
  left s = unvisited s.visited all_keys

  abbrev Progress : ℕ → Pass F T → Type 0
  Progress n (ends d) = Unit
  Progress n (goes_on s) = left s < n

  pass-Progress : (s : Search F T) → InSearch s → Progress (left s) (pass F T b target s)
  unfolding after_round run_round after_found
  pass-Progress s h =
      pass_cases F T (Progress (left s)) b target s (λ _ _. tt) (λ _. tt) (λ _ _ _ _ _. tt)
        λ n ns q _.
          let fresh =
            subst (All (IsUnvisited s.visited)) q (select-IsUnvisited 3 s.visited s.closest) in
          let known =
            subst (All (λ (m : NetworkNode). IsPeer m × (m.id ≢ own.id))) q
              (All-select _ 3 s.visited s.closest h.nodes) in
          unvisited-lt n.id (ids ns) s.visited all_keys (Occurs-all_keys n.id known.0.0) fresh.0

  search_loop_total :
      (fuel : ℕ) (s : Search F T)
      → InSearch s
      → left s < fuel
      → (d : Done F T) × (search_loop F T fuel b target s ≡ some d)
  unfolding search_loop
  search_loop_total zero s h p = elim p [ ]
  search_loop_total (suc fuel) s h p =
      next (pass F T b target s) (pass-IsPass F T IsPeer V _ answers b target own s h)
        (pass-Progress s h) (λ s'. search_loop_total fuel s')
    where
      next :
          (r : Pass F T)
          → IsPass F T IsPeer V (λ _ p. p) answers b target own r
          → Progress (left s) r
          → ((s' : Search F T)
              → InSearch s'
              → left s' < fuel
              → (d : Done F T) × (search_loop F T fuel b target s' ≡ some d))
          → (d : Done F T) × ◌≡◌ {A = Option (Done F T)}
              (elim r [ ends d' ↦ some d' | goes_on s' ↦ search_loop F T fuel b target s' ])
              (some d)
      next (ends d) g q ih = (d, refl)
      next (goes_on s') g q ih = ih s' g (omega arith)

-- The nodes that the search begins with.
abbrev start_nodes : Node → NodeId → List NetworkNode
start_nodes node target = without_self node.self.id (find_closest node.rt target k)

start_nodes-bounded : (node : Node) (target : NodeId) → length (start_nodes node target) ≤ k
start_nodes-bounded node target = omega (
  arith,
  length-without_self-le node.self.id (find_closest node.rt target k),
  (find_closest-IsClosest node.rt target k).size,
)

start_nodes-nodes :
    (node : Node) (target : NodeId)
    → IsNode node
    → All (λ n. IsPeer n × (n.id ≢ node.self.id)) (start_nodes node target)
start_nodes-nodes node target h = All-without_self IsPeer node.self.id _ (
    All-first _ _ (find_closest node.rt target k)
      (All-find_closest _ node.rt target k (IsPlaced-contacts node.rt (IsValid-IsPlaced h.table))))

-- From a correct node, with other nodes whose contacts have keys, iterative_search with more than 2
-- ^ 160 of fuel ends. What it returns is sorted by the distance to the target, has at most k nodes,
-- all with keys and none of them the node itself; a value has the property that every value has
-- which a node answers, and comes without an error; without a value and with the context still
-- open, every returned node was asked; a search for a value without a value reports an error, and a
-- search for nodes without an error returns at least one, and never a value; the node stays
-- correct.
pub iterative_search-IsDone :
    (F : Formats) (T : Transport) (V : ValueMeta → Type 0) (answers : Answers T IsPeer V) (fuel : ℕ)
    (w : T.World) (node : Node) (target : NodeId) (b : Bool)
    → 2 ^ 160 < fuel
    → IsNode node
    → (d : Done F T) × (iterative_search F T fuel w node target b ≡ some d)
      × IsDone F T IsPeer V (λ _ p. p) answers b target node.self d
unfolding iterative_search search_from
iterative_search-IsDone F T V answers fuel w node target b enough h =
    from (start_nodes node target) refl
  where
    Goal : List NetworkNode → Type 0
    Goal l =
        (d : Done F T) × (search_from F T fuel b target w node l ≡ some d)
        × IsDone F T IsPeer V (λ _ p. p) answers b target node.self d

    from : (l : List NetworkNode) → start_nodes node target ≡ l → Goal l
    from [] e = (
      _,
      refl,
      record {
        nodes = tt;
        sorted = tt;
        bounded = omega arith;
        value = tt;
        settled = λ _ _. tt;
        exclusive = λ _ q. absurd (cc);
        no_value = λ _. refl;
        some_node = λ _ q. absurd (cc);
        reported = λ _ _. (_, refl);
        self = refl;
        node = h;
      },
    )
    from (n ∷ ns) e =
        let s : Search F T = record { world = w; node = node; visited = []; closest = n ∷ ns } in
        let v : InSearch F T V answers b target node.self s = record {
          nodes =
              subst (All (λ (m : NetworkNode). IsPeer m × (m.id ≢ node.self.id))) e
                (start_nodes-nodes node target h);
          sorted = subst (IsSorted (distance_to target)) e (
              without_self-IsSorted _ node.self.id _
                (find_closest-IsClosest node.rt target k).sorted);
          bounded = omega (arith, ap {B = ℕ} length e, start_nodes-bounded node target);
          some_left = omega arith;
          self = refl;
          node = h;
        } in
        let few = unvisited-le-length [] all_keys in
        let (d, done) =
          search_loop_total F T V answers b target node.self fuel s v
            (omega (arith, few, length-all_keys)) in
        (d, done, search_loop-IsDone F T IsPeer V _ answers b target node.self fuel s d v done)
