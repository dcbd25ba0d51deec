-- ===== src/Lookup/Rounds.antt =====
-- dht/logic.go, `iterativeSearch`: what a round keeps, whatever the other nodes answer.
use webrtc_dht.Prelude.{
  ◌≡◌, refl, sym, ◌∙◌, ap, subst, ◌≢◌, Bool, true, false, Option, none, some, List, [], ◌∷◌, ◌++◌,
  if_pos, if_neg, if◌then◌else◌, Bool-cases, inl, inr, All, All-append,
}
use webrtc_dht.Key.{NodeId, key_eq}
use webrtc_dht.Types.{NetworkNode, ValueMeta, Result, ok, err, Result-cases, ok-injective}
use webrtc_dht.Node.Laws.{IsNode, add_peer-self, add_peer-IsNode}
use webrtc_dht.Routing.Invariant.{IsPeer}
use webrtc_dht.Storage.Files.{Formats}
use webrtc_dht.Transport.{Transport}
use webrtc_dht.Lookup.{
  is_visited, collect_one, collect, receive, no_value, call_node, ask, ask_all, Round, Search,
  run_round,
}

-- What the other nodes answer: contacts of which `P` holds, and values of which `V` holds.
pub record Answers (T : Transport) (P : NetworkNode → Type 0) (V : ValueMeta → Type 0)
    : Type 0 where
  pub nodes :
      (w : T.World) (n : NetworkNode) (target : NodeId) (ns : List NetworkNode)
      → (T.find_node w n target).1 ≡ ok ns
      → All P ns
  pub others :
      (w : T.World) (n : NetworkNode) (target : NodeId) (v : Option ValueMeta)
      (ns : List NetworkNode)
      → (T.find_value w n target).1 ≡ ok (v, ns)
      → All P ns
  pub values :
      (w : T.World) (n : NetworkNode) (target : NodeId) (v : ValueMeta) (ns : List NetworkNode)
      → (T.find_value w n target).1 ≡ ok (some v, ns)
      → V v

-- `V` holds of the value, if there is one.
abbrev pub Whenever : (ValueMeta → Type 0) → Option ValueMeta → Type 0
Whenever V none = Unit
Whenever V (some v) = V v

module _ (F : Formats) (T : Transport) (P : NetworkNode → Type 0) (V : ValueMeta → Type 0) where
  -- The nodes that a round has collected, and the value that it has found, come from the answers;
  -- the node is correct and still the same.
  pub record Keeps (own : NetworkNode) (r : Round F T) : Type 0 where
    pub nodes : All (λ n. P n × (n.id ≢ own.id)) r.new_nodes
    pub value : Whenever V r.found
    pub self : r.node.self ≡ own
    pub node : IsNode r.node

  module _ (peers : (n : NetworkNode) → P n → IsPeer n) (own : NetworkNode) where
    collect_one-Keeps :
        (visited : List NodeId) (r : Round F T) (n : NetworkNode)
        → P n
        → Keeps own r
        → Keeps own (collect_one F T visited r n)
    unfolding collect_one
    collect_one-Keeps visited r n p h = elim (key_eq n.id r.node.self.id) [
      | yes same ↦ rw (if_pos _ same) h
      | no other ↦ rw (if_neg _ other) (record {
        nodes = grown (rw h.self at other);
        value = h.value;
        self = add_peer-self F T r.world r.node n ∙ h.self;
        node = add_peer-IsNode F T r.world r.node n (peers n p) h.node;
      })
    ]
      where
        grown :
            n.id ≢ own.id
            → All
                (λ n. P n × (n.id ≢ own.id))
                (if is_visited visited n.id then r.new_nodes else r.new_nodes ++ n ∷ [])
        grown ne = elim (Bool-cases (is_visited visited n.id)) [
          | inl old ↦ rw old h.nodes
          | inr new ↦ rw new (All-append _ r.new_nodes (n ∷ []) h.nodes ((p, ne), tt))
        ]

    collect-Keeps :
        (visited : List NodeId) (r : Round F T) (ns : List NetworkNode)
        → All P ns
        → Keeps own r
        → Keeps own (collect F T visited r ns)
    unfolding collect
    collect-Keeps visited r [] p h = h
    collect-Keeps visited r (n ∷ ns) p h =
        collect-Keeps visited (collect_one F T visited r n) ns p.1
          (collect_one-Keeps visited r n p.0 h)

    receive-Keeps :
        (visited : List NodeId) (r : Round F T)
        (answer : Result (Option ValueMeta × List NetworkNode))
        → ((v : Option ValueMeta) (ns : List NetworkNode)
            → answer ≡ ok (v, ns)
            → Whenever V v × All P ns)
        → Keeps own r
        → Keeps own (receive F T visited r answer)
    unfolding receive
    receive-Keeps visited r (err e) good h = h
    receive-Keeps visited r (ok (some v, ns)) good h = record {
      nodes = h.nodes;
      value = (good (some v) ns refl).0;
      self = h.self;
      node = h.node;
    }
    receive-Keeps visited r (ok (none, ns)) good h =
        collect-Keeps visited r ns (good none ns refl).1 h

    module _ (answers : Answers T P V) (is_find_value : Bool) (target : NodeId) where
      call_node-good :
          (b : Bool) (w : T.World) (n : NetworkNode) (v : Option ValueMeta) (ns : List NetworkNode)
          → (call_node F T b w n target).1 ≡ ok (v, ns)
          → Whenever V v × All P ns
      unfolding call_node no_value
      call_node-good true w n none ns e = (tt, answers.others w n target none ns e)
      call_node-good true w n (some v) ns e =
          (answers.values w n target v ns e, answers.others w n target (some v) ns e)
      call_node-good false w n v ns e = elim (Result-cases (T.find_node w n target).1) [
        | inl (ms, q) ↦
            let same = ok-injective (ap (no_value F T) (sym q) ∙ e) in
            (
              subst (Whenever V) (ap (λ r. r.0) same) tt,
              subst (All P) (ap (λ r. r.1) same) (answers.nodes w n target ms q),
            )
        | inr (x, q) ↦ let differ = ap (no_value F T) (sym q) ∙ e in absurd (cc)
      ]

      ask-Keeps :
          (visited : List NodeId) (r : Round F T) (n : NetworkNode)
          → Keeps own r
          → Keeps own (ask F T is_find_value target visited r n)
      unfolding ask
      ask-Keeps visited r n h =
          receive-Keeps visited _ _ (call_node-good is_find_value r.world n)
            (record { nodes = h.nodes; value = h.value; self = h.self; node = h.node })

      ask_all-Keeps :
          (visited : List NodeId) (r : Round F T) (ns : List NetworkNode)
          → Keeps own r
          → Keeps own (ask_all F T is_find_value target visited r ns)
      unfolding ask_all
      ask_all-Keeps visited r [] h = h
      ask_all-Keeps visited r (n ∷ ns) h =
          ask_all-Keeps visited (ask F T is_find_value target visited r n) ns
            (ask-Keeps visited r n h)

      pub run_round-Keeps :
          (s : Search F T) (to_query : List NetworkNode)
          → s.node.self ≡ own
          → IsNode s.node
          → Keeps own (run_round F T is_find_value target s to_query).1
      unfolding run_round
      run_round-Keeps s to_query same v =
          ask_all-Keeps _ _ _ (record { nodes = tt; value = tt; self = same; node = v })

-- A round of a search for nodes finds no value.
module _ (F : Formats) (T : Transport) (target : NodeId) (visited : List NodeId) where
  collect_one-found :
      (r : Round F T) (n : NetworkNode) → (collect_one F T visited r n).found ≡ r.found
  unfolding collect_one
  collect_one-found r n = elim (key_eq n.id r.node.self.id) [
    | yes same ↦ ap (λ (x : Round F T). x.found) (if_pos (key_eq n.id r.node.self.id) same _ _)
    | no other ↦ ap (λ (x : Round F T). x.found) (if_neg (key_eq n.id r.node.self.id) other _ _)
  ]

  collect-found :
      (r : Round F T) (ns : List NetworkNode) → (collect F T visited r ns).found ≡ r.found
  unfolding collect
  collect-found r [] = refl
  collect-found r (n ∷ ns) = collect-found (collect_one F T visited r n) ns ∙ collect_one-found r n

  receive-found :
      (r : Round F T) (answer : Result (List NetworkNode))
      → (receive F T visited r (no_value F T answer)).found ≡ r.found
  unfolding receive no_value
  receive-found r (err e) = refl
  receive-found r (ok ns) = collect-found r ns

  ask_all-found :
      (r : Round F T) (ns : List NetworkNode)
      → (ask_all F T false target visited r ns).found ≡ r.found
  unfolding ask_all ask call_node
  ask_all-found r [] = refl
  ask_all-found r (n ∷ ns) =
      ask_all-found (ask F T false target visited r n) ns
      ∙ receive-found (record r { world = (T.find_node r.world n target).0 })
          (T.find_node r.world n target).1

pub run_round-found :
    (F : Formats) (T : Transport) (target : NodeId) (s : Search F T) (to_query : List NetworkNode)
    → (run_round F T false target s to_query).1.found ≡ none
unfolding run_round
run_round-found F T target s to_query = ask_all-found F T target _ _ _
