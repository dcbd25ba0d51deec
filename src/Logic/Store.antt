-- ===== src/Logic/Store.antt =====
-- dht/logic.go, `FindValue`, `StoreValue` and `Bootstrap`: they end, and what they return.
use webrtc_dht.Prelude.{
  ℕ, ◌≤◌, ◌<◌, ◌^◌, ◌≡◌, refl, sym, ◌∙◌, ◌≢◌, true, false, Option, none, some, List, [], ◌∷◌,
  length, All, Option-cases, inl, inr, ◌⊎◌, take, drop,
}
use webrtc_dht.Prelude.Sort.{IsSorted}
use webrtc_dht.Key.{Key}
use webrtc_dht.Types.{Error, NetworkNode, ValueMeta}
use webrtc_dht.Routing.Closest.{distance_to}
use webrtc_dht.Routing.Invariant.{IsPeer}
use webrtc_dht.Node.{Node, add_peer}
use webrtc_dht.Node.Laws.{IsNode, add_peer-IsNode, add_peer-self}
use webrtc_dht.Storage
use webrtc_dht.Storage.Files.{Formats}
use webrtc_dht.Transport.{Transport}
use webrtc_dht.Lookup.{Done, is_visited, iterative_search}
use webrtc_dht.Lookup.Rounds.{Answers, Whenever}
use webrtc_dht.Lookup.Termination.{iterative_search-IsDone}
use webrtc_dht.Logic.{
  store_k, add_all, lookup_node, bootstrap_search, bootstrap, store_all, find_value,
}

module _ (F : Formats) (T : Transport) (V : ValueMeta → Type 0) (answers : Answers T IsPeer V)
    (fuel : ℕ) (enough : 2 ^ 160 < fuel) where
  -- find_value of a correct node, with more than 2 ^ 160 of fuel and other nodes whose contacts
  -- have keys, ends, with a value or an error and never both. A value that is stored at the node is
  -- returned, and nothing else happens; if there is none, the outcome is that of the search, and a
  -- value has the property that every value has which a node answers. The node stays correct.
  pub find_value_sound :
      (w : T.World) (node : Node) (key : Key)
      → IsNode node
      → (w' : T.World) × (node' : Node) × (value : Option ValueMeta) × (error : Option Error)
        × (find_value F T fuel w node key ≡ some (w', node', value, error))
        × ((v : ValueMeta)
            → Storage.get F node.storage key ≡ some v
            → (w' ≡ w) × (node' ≡ node) × (value ≡ some v))
        × (Storage.get F node.storage key ≡ none
            → Whenever V value
              × ((d : Done F T) × (iterative_search F T fuel w node key true ≡ some d)
                  × (w' ≡ d.world)
                  × (node' ≡ d.node)
                  × (value ≡ d.result.value)))
        × (value ≡ none → error ≢ none)
        × ((v : ValueMeta) → value ≡ some v → error ≡ none)
        × IsNode node'
  unfolding find_value
  find_value_sound w node key h = elim (Option-cases (Storage.get F node.storage key)) [
    | inr (v, e) ↦ (
      w,
      node,
      some v,
      none,
      rw (e, find_value) refl,
      λ v' e'. (refl, refl, sym e ∙ e'),
      λ e'. absurd (cc (sym e, e')),
      λ q. absurd (cc),
      λ _ _. refl,
      h,
    )
    | inl e ↦
        let (d, ends, is) = iterative_search-IsDone F T V answers fuel w node key true enough h in
        (
          d.world,
          d.node,
          d.result.value,
          d.result.error,
          rw (e, find_value, ends) refl,
          λ v' e'. absurd (cc (sym e, e')),
          λ _. (is.value, (d, ends, refl, refl, refl)),
          λ q r. let (x, p) = is.reported refl q in absurd (cc (sym p, r)),
          is.exclusive,
          is.node,
        )
  ]

  -- What `StoreValue` has done, after a search that ended so.
  abbrev pub IsStored :
      T.World → Node → Key → ValueMeta → Done F T → Option (T.World × Node × Option Error) → Type 0
  IsStored w node key value d r =
      let targets = take store_k d.result.nodes in
      ((e : Error) × (d.result.nodes ≡ [])
        × (d.result.error ≡ some e)
        × (r ≡ some (d.world, d.node, some e)))
      ⊎ ((r
            ≡ some (
              store_all F T (T.schedule d.world targets).0 (T.schedule d.world targets).1 key value,
              d.node,
              none,
            ))
          × (1 ≤ length targets)
          × (length targets ≤ store_k)
          × IsSorted (distance_to key) targets
          × All
              (λ n. All (λ m. distance_to key n ≤ distance_to key m) (drop store_k d.result.nodes))
              targets
          × All (λ n. IsPeer n × (n.id ≢ node.self.id)) targets
          × (T.context_error d.world ≡ none → All (λ n. is_visited d.visited n.id ≡ true) targets))

  add_all-IsNode :
      (w : T.World) (node : Node) (ns : List NetworkNode)
      → All IsPeer ns
      → IsNode node
      → IsNode (add_all F T w node ns).1 × ((add_all F T w node ns).1.self ≡ node.self)
  unfolding add_all
  add_all-IsNode w node [] p h = (h, refl)
  add_all-IsNode w node (n ∷ ns) p h =
      let (v, same) =
        add_all-IsNode (add_peer F T w node n).0 (add_peer F T w node n).1 ns p.1
          (add_peer-IsNode F T w node n p.0 h) in
      (v, same ∙ add_peer-self F T w node n)

  -- `Bootstrap` ends and leaves the node correct, if the first contacts have keys; with none it
  -- fails, and changes nothing.
  pub bootstrap-IsNode :
      (w : T.World) (node : Node) (ns : List NetworkNode)
      → IsNode node
      → All IsPeer ns
      → (w' : T.World) × (node' : Node) × (error : Option Error) × (bootstrap F T fuel w node ns
          ≡ some (w', node', error))
        × IsNode node'
        × (ns ≡ [] → (node' ≡ node) × (w' ≡ w) × (error ≢ none))
  unfolding bootstrap bootstrap_search lookup_node
  bootstrap-IsNode w node [] h p = (w, node, _, refl, h, λ _. (refl, refl, λ e. absurd (cc)))
  bootstrap-IsNode w node (n ∷ ns) h p =
      let (correct, same) = add_all-IsNode w node (n ∷ ns) p h in
      let begun = add_all F T w node (n ∷ ns) in
      let (d, ends, is) =
        iterative_search-IsDone F T V answers fuel begun.0 begun.1 node.self.id false enough
          correct in
      (d.world, d.node, d.result.error, rw (ends, bootstrap_search), is.node, λ e. absurd (cc))
