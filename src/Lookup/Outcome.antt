-- ===== src/Lookup/Outcome.antt =====
-- dht/logic.go, `iterativeSearch`: what holds in every state of the loop, and of what is returned.
use webrtc_dht.Prelude.{
  ℕ, zero, suc, ◌≤◌, ◌≡◌, refl, sym, ap, ◌∙◌, subst, ◌≢◌, Bool, true, false, Option, none, some,
  List, [], ◌∷◌, ◌++◌, arith, Option-cases, eq_of_some, inl, inr, length, length-take,
  length-append, All, All-append, All-take,
}
use webrtc_dht.Prelude.Sort.{IsSorted, All-sort_by, length-sort_by, sort_by-IsSorted, take-IsSorted}
use webrtc_dht.Key.{NodeId, get_key_distance}
use webrtc_dht.Types.{Error, not_found, NetworkNode, ValueMeta}
use webrtc_dht.Routing.{k}
use webrtc_dht.Routing.Closest.{distance_to}
use webrtc_dht.Routing.Invariant.{IsPeer}
use webrtc_dht.Node.Laws.{IsNode}
use webrtc_dht.Storage.Files.{Formats}
use webrtc_dht.Transport.{Transport}
use webrtc_dht.Lookup.{
  alpha, is_visited, select, sort_nodes, end_error, Round, Search, Done, Pass, ends, goes_on,
  run_round, after_round, after_found, query, pass, finish, search_loop,
}
use webrtc_dht.Lookup.Select.{select-eq-nil}
use webrtc_dht.Lookup.Rounds.{Answers, Whenever, Keeps, run_round-Keeps, run_round-found}

module _ (F : Formats) (T : Transport) where
  module _ {ℓ} (Goal : Pass F T → Type ℓ) (b : Bool) (target : NodeId) (s : Search F T) where
    -- The branches of a pass: the context is done, no node is left to ask, a value was found, or
    -- the loop goes on.
    pub pass_cases :
        ((e : Error)
          → T.context_error s.world ≡ some e
          → Goal (ends (finish F T s (record { nodes = s.closest; value = none; error = some e }))))
        → (select alpha s.visited s.closest ≡ []
            → Goal (
                ends
                  (finish F T s (record { nodes = s.closest; value = none; error = end_error b }))))
        → ((n : NetworkNode) (ns : List NetworkNode) (v : ValueMeta)
            → select alpha s.visited s.closest ≡ n ∷ ns
            → (run_round F T b target s (n ∷ ns)).1.found ≡ some v
            → Goal (after_found F T target s (run_round F T b target s (n ∷ ns)) (some v)))
        → ((n : NetworkNode) (ns : List NetworkNode)
            → select alpha s.visited s.closest ≡ n ∷ ns
            → (run_round F T b target s (n ∷ ns)).1.found ≡ none
            → Goal (goes_on (after_round F T target s (run_round F T b target s (n ∷ ns)))))
        → Goal (pass F T b target s)
    unfolding pass query after_found finish
    pass_cases done nobody found on = elim (Option-cases (T.context_error s.world)) [
      | inr (e, p) ↦ rw (p, pass) (done e p)
      | inl p ↦ rw (p, pass) (asked (select alpha s.visited s.closest) refl)
    ]
      where
        asked :
            (l : List NetworkNode)
            → select alpha s.visited s.closest ≡ l
            → Goal (query F T b target s l)
        asked [] q = nobody q
        asked (n ∷ ns) q = elim (Option-cases answer.1.found) [
          | inr (v, r) ↦
              subst (λ o. Goal (after_found F T target s answer o)) (sym r) (found n ns v q r)
          | inl r ↦ subst (λ o. Goal (after_found F T target s answer o)) (sym r) (on n ns q r)
        ]
          where
            answer : List NodeId × Round F T
            answer = run_round F T b target s (n ∷ ns)

  module _ (P : NetworkNode → Type 0) (V : ValueMeta → Type 0)
      (peers : (n : NetworkNode) → P n → IsPeer n) (answers : Answers T P V) (b : Bool)
      (target : NodeId) (own : NetworkNode) where
    -- `closest` is sorted and short, comes from the answers, and does not hold the node itself.
    pub record IsSearch (s : Search F T) : Type 0 where
      pub nodes : All (λ n. P n × (n.id ≢ own.id)) s.closest
      pub sorted : IsSorted (distance_to target) s.closest
      pub bounded : length s.closest ≤ k
      pub some_left : 1 ≤ length s.closest
      pub self : s.node.self ≡ own
      pub node : IsNode s.node

    -- What is returned, if the search ends.
    pub record IsDone (d : Done F T) : Type 0 where
      pub nodes : All (λ n. P n × (n.id ≢ own.id)) d.result.nodes
      pub sorted : IsSorted (distance_to target) d.result.nodes
      pub bounded : length d.result.nodes ≤ k
      pub value : Whenever V d.result.value
      pub settled :
          T.context_error d.world ≡ none
          → d.result.value ≡ none
          → All (λ n. is_visited d.visited n.id ≡ true) d.result.nodes
      pub exclusive : (v : ValueMeta) → d.result.value ≡ some v → d.result.error ≡ none
      pub no_value : b ≡ false → d.result.value ≡ none
      pub some_node : b ≡ false → d.result.error ≡ none → 1 ≤ length d.result.nodes
      pub reported : b ≡ true → d.result.value ≡ none → (e : Error) × (d.result.error ≡ some e)
      pub self : d.node.self ≡ own
      pub node : IsNode d.node

    after_round-IsSearch :
        (s : Search F T) (r : List NodeId × Round F T)
        → IsSearch s
        → Keeps F T P V own r.1
        → IsSearch (after_round F T target s r)
    unfolding after_round sort_nodes
    after_round-IsSearch s r h g = record {
      nodes =
          All-take _ k _ (All-sort_by _ _ _ (All-append _ s.closest r.1.new_nodes h.nodes g.nodes));
      sorted = take-IsSorted _ k _ (sort_by-IsSorted _ (s.closest ++ r.1.new_nodes));
      bounded = omega (arith, length-take k (sort_nodes target (s.closest ++ r.1.new_nodes)));
      some_left = omega (
        arith,
        h.some_left,
        length-take k (sort_nodes target (s.closest ++ r.1.new_nodes)),
        length-sort_by (λ (n : NetworkNode). get_key_distance n.id target)
            (s.closest ++ r.1.new_nodes),
        length-append s.closest r.1.new_nodes,
      );
      self = g.self;
      node = g.node;
    }

    -- What holds of a pass: of the state that it goes on with, or of what it returns.
    abbrev pub IsPass : Pass F T → Type 0
    IsPass (ends d) = IsDone d
    IsPass (goes_on s) = IsSearch s

    pub pass-IsPass : (s : Search F T) → IsSearch s → IsPass (pass F T b target s)
    unfolding finish after_found end_error
    pass-IsPass s h =
        pass_cases IsPass b target s
          (λ e stop. ended _ (λ free. absurd (cc (sym stop, free))) (λ _. (e, refl)))
          (λ nobody.
            ended _ (λ _. select-eq-nil 2 s.visited s.closest nobody)
              (λ is. (not_found, ap end_error is)))
          (λ n ns v q found.
            let g = round n ns in
            record {
              nodes = tt;
              sorted = tt;
              bounded = omega arith;
              value = subst (Whenever V) found g.value;
              settled = λ _ _. tt;
              exclusive = λ _ _. refl;
              no_value = λ is. absurd (found_none n ns v is found);
              some_node = λ is. absurd (found_none n ns v is found);
              reported = λ _ q. absurd (cc);
              self = g.self;
              node = g.node;
            })
          (λ n ns q _. after_round-IsSearch s _ h (round n ns))
      where
        round :
            (n : NetworkNode) (ns : List NetworkNode)
            → Keeps F T P V own (run_round F T b target s (n ∷ ns)).1
        round n ns = run_round-Keeps F T P V peers own answers b target s (n ∷ ns) h.self h.node

        found_none :
            (n : NetworkNode) (ns : List NetworkNode) (v : ValueMeta)
            → b ≡ false
            → (run_round F T b target s (n ∷ ns)).1.found ≡ some v
            → ⊥
        found_none n ns v is found =
            let nothing =
              ap (λ c. (run_round F T c target s (n ∷ ns)).1.found) is
              ∙ run_round-found F T target s (n ∷ ns) in
            absurd (cc (sym found, nothing))

        ended :
            (e : Option Error)
            → (T.context_error s.world ≡ none
                → All (λ n. is_visited s.visited n.id ≡ true) s.closest)
            → (b ≡ true → (x : Error) × (e ≡ some x))
            → IsDone (finish F T s (record { nodes = s.closest; value = none; error = e }))
        ended e asked why = record {
          nodes = h.nodes;
          sorted = h.sorted;
          bounded = h.bounded;
          value = tt;
          settled = λ free _. asked free;
          exclusive = λ _ q. absurd (cc);
          no_value = λ _. refl;
          some_node = λ _ _. h.some_left;
          reported = λ is _. why is;
          self = h.self;
          node = h.node;
        }

    pub search_loop-IsDone :
        (fuel : ℕ) (s : Search F T) (d : Done F T)
        → IsSearch s
        → search_loop F T fuel b target s ≡ some d
        → IsDone d
    unfolding search_loop
    search_loop-IsDone zero s d h e = absurd (cc)
    search_loop-IsDone (suc fuel) s d h e =
        next (pass F T b target s) (pass-IsPass s h) e (λ s'. search_loop-IsDone fuel s' d)
      where
        next :
            (p : Pass F T)
            → IsPass p
            → ◌≡◌ {A = Option (Done F T)}
                (elim p [ ends d' ↦ some d' | goes_on s' ↦ search_loop F T fuel b target s' ])
                (some d)
            → ((s' : Search F T)
                → IsSearch s'
                → search_loop F T fuel b target s' ≡ some d
                → IsDone d)
            → IsDone d
        next (ends d') g q ih = subst IsDone (eq_of_some q) g
        next (goes_on s') g q ih = ih s' g q
