-- ===== src/Tests/Lookup.antt =====
-- The theorems of the searches, applied.
use webrtc_dht.Prelude.{
  ℕ, ◌^◌, ◌+◌, subst, ◌<◌, ◌≡◌, ◌≢◌, true, Option, none, some, List, [], ◌∷◌, arith, All,
}
use webrtc_dht.Types.{Error, ok-injective, NetworkNode, ValueMeta}
use webrtc_dht.Storage
use webrtc_dht.Routing.Invariant.{IsPeer}
use webrtc_dht.Node.{Node}
use webrtc_dht.Node.Laws.{IsNode}
use webrtc_dht.Lookup.{Done, iterative_search}
use webrtc_dht.Lookup.Rounds.{Answers, Whenever}
use webrtc_dht.Lookup.Outcome.{IsDone}
use webrtc_dht.Lookup.Termination.{iterative_search-IsDone}
use webrtc_dht.Logic.{bootstrap, find_value}
use webrtc_dht.Logic.Store.{find_value_sound, bootstrap-IsNode}
use webrtc_dht.Tests.Codec.{formats}
use webrtc_dht.Tests.Data.{key, key-IsKey, peer, inline_value, net}
use webrtc_dht.Tests.Node.{node, node-IsNode}

-- The values that are spread.
abbrev IsSpread : ValueMeta → Type 0
IsSpread v = v ≡ inline_value

net-Answers : Answers (net (some inline_value)) IsPeer IsSpread
net-Answers = record {
  nodes = λ w n target ns e. subst (All IsPeer) (ok-injective e) (key-IsKey 2 (omega arith), tt);
  others = λ w n target v ns e.
      subst (λ (r : Option ValueMeta × List NetworkNode). All IsPeer r.1) (ok-injective e)
        (key-IsKey 2 (omega arith), tt);
  values = λ w n target v ns e. cc;
}

-- More rounds than there are keys.
abbrev fuel : ℕ
fuel = 2 ^ 160 + 1

enough : 2 ^ 160 < fuel
enough = omega arith

iterative_search-IsDone_example :
    (d : Done formats (net (some inline_value))) × (iterative_search formats
        (net (some inline_value))
        fuel
        0
        node
        (key 3)
        true
      ≡ some d)
    × IsDone formats
        (net (some inline_value))
        IsPeer
        IsSpread
        (λ _ p. p)
        net-Answers
        true
        (key 3)
        (peer 1)
        d
iterative_search-IsDone_example =
    iterative_search-IsDone formats (net (some inline_value)) IsSpread net-Answers fuel 0 node
      (key 3) true enough node-IsNode

find_value_sound_example :
    (w' : ℕ) × (node' : Node) × (value : Option ValueMeta) × (error : Option Error) × (find_value
        formats
        (net (some inline_value))
        fuel
        0
        node
        (key 3)
      ≡ some (w', node', value, error))
    × ((v : ValueMeta)
        → Storage.get formats node.storage (key 3) ≡ some v
        → (w' ≡ 0) × (node' ≡ node) × (value ≡ some v))
    × (Storage.get formats node.storage (key 3) ≡ none
        → Whenever IsSpread value
          × ((d : Done formats (net (some inline_value))) × (iterative_search formats
                  (net (some inline_value))
                  fuel
                  0
                  node
                  (key 3)
                  true
                ≡ some d)
              × (w' ≡ d.world)
              × (node' ≡ d.node)
              × (value ≡ d.result.value)))
    × (value ≡ none → error ≢ none)
    × ((v : ValueMeta) → value ≡ some v → error ≡ none)
    × IsNode node'
find_value_sound_example =
    find_value_sound formats (net (some inline_value)) IsSpread net-Answers fuel enough 0 node
      (key 3) node-IsNode

bootstrap-IsNode_example :
    (w' : ℕ) × (node' : Node) × (error : Option Error) × (bootstrap formats
        (net (some inline_value))
        fuel
        0
        node
        (peer 2 ∷ [])
      ≡ some (w', node', error))
    × IsNode node'
    × (peer 2 ∷ [] ≡ [] → (node' ≡ node) × (w' ≡ 0) × (error ≢ none))
bootstrap-IsNode_example =
    bootstrap-IsNode formats (net (some inline_value)) IsSpread net-Answers fuel enough 0 node
      (peer 2 ∷ []) node-IsNode (key-IsKey 2 (omega arith), tt)
