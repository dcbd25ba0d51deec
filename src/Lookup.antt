-- ===== src/Lookup.antt =====
-- dht/logic.go, `iterativeSearch`: the search for the nodes nearest to a target, or for a value.
-- One round of the loop asks up to `alpha` nodes at once. Each answer is handled under a mutex, so
-- a round is a fold over the answers in the order in which `schedule` lets the goroutines run.
pub mod Select
pub mod Rounds
pub mod Answered
pub mod Universe
pub mod Termination
pub mod Outcome
use webrtc_dht.Prelude.{
  ℕ, zero, suc, ◌-◌, Bool, true, false, not, Option, none, some, List, [], ◌∷◌, ◌++◌, map, ite, ltb,
  if◌then◌else◌, length, take, codes, Text,
}
use webrtc_dht.Prelude.Sort.{sort_by}
use webrtc_dht.Key.{Key, NodeId, key_eq, get_key_distance}
use webrtc_dht.Types.{Error, not_found, message, Result, ok, err, NetworkNode, ValueMeta}
use webrtc_dht.Routing.{k, RoutingTable, find_closest}
use webrtc_dht.Node.{Node, add_peer}
use webrtc_dht.Storage.Files.{Formats}
use webrtc_dht.Transport.{Transport}

-- The constants `Alpha` and `StoreK`.
abbrev pub alpha : ℕ
alpha = 3

-- The map `visited`, as the list of the identifiers in it.
unfoldable pub is_visited : List NodeId → NodeId → Bool
is_visited [] id = false
is_visited (v ∷ vs) id = ite (key_eq v id) true (is_visited vs id)

-- `n.Id != node.self.Id` for each of a list.
unfoldable pub without_self : NodeId → List NetworkNode → List NetworkNode
without_self own [] = []
without_self own (n ∷ ns) = let rest = without_self own ns in ite (key_eq n.id own) rest (n ∷ rest)

-- The first `room` nodes that are not visited.
unfoldable pub select : ℕ → List NodeId → List NetworkNode → List NetworkNode
select zero visited ns = []
select (suc room) visited [] = []
select (suc room) visited (n ∷ ns) =
    let skipped = select (suc room) visited ns in
    let taken = n ∷ select room visited ns in if is_visited visited n.id then skipped else taken

abbrev pub ids : List NetworkNode → List NodeId
ids = map (λ n. n.id)

unfoldable pub sort_nodes : NodeId → List NetworkNode → List NetworkNode
sort_nodes target = sort_by (λ n. get_key_distance n.id target)

-- What the search returns: nodes, a value and an error, each of which may be nil.
pub record SearchResult : Type 0 where
  pub nodes : List NetworkNode
  pub value : Option ValueMeta
  pub error : Option Error

pub empty_table : Error
empty_table = message (codes "routing table is empty")

-- `err` of the end of the search.
unfoldable pub end_error : Bool → Option Error
end_error true = some not_found
end_error false = none

module _ (F : Formats) (T : Transport) where
  open T use {World, find_node, find_value, schedule, context_error}

  -- What the goroutines of one round share: the world and the node, `newNodes` and `foundValue`.
  pub record Round : Type 0 where
    pub world : World
    pub node : Node
    pub new_nodes : List NetworkNode
    pub found : Option ValueMeta

  -- One node of an answer.
  unfoldable pub collect_one : List NodeId → Round → NetworkNode → Round
  collect_one visited r n =
      let (w, node) = add_peer F T r.world r.node n in
      ite (key_eq n.id r.node.self.id) r (record {
        world = w;
        node = node;
        new_nodes = if is_visited visited n.id then r.new_nodes else r.new_nodes ++ n ∷ [];
        found = r.found;
      })

  unfoldable pub collect : List NodeId → Round → List NetworkNode → Round
  collect visited r [] = r
  collect visited r (n ∷ ns) = collect visited (collect_one visited r n) ns

  -- A goroutine with its answer: an error is dropped, and a value is kept with no look at nodes.
  unfoldable pub receive :
      List NodeId → Round → Result (Option ValueMeta × List NetworkNode) → Round
  receive visited r (err e) = r
  receive visited r (ok (some value, nodes)) = record r { found = some value }
  receive visited r (ok (none, nodes)) = collect visited r nodes

  no_value : Result (List NetworkNode) → Result (Option ValueMeta × List NetworkNode)
  no_value (ok nodes) = ok (none, nodes)
  no_value (err e) = err e

  unfoldable pub call_node :
      Bool → World → NetworkNode → NodeId → World × Result (Option ValueMeta × List NetworkNode)
  unfolding no_value
  call_node true w n target = find_value w n target
  call_node false w n target = let (w', answer) = find_node w n target in (w', no_value answer)

  unfoldable pub ask : Bool → NodeId → List NodeId → Round → NetworkNode → Round
  ask is_find_value target visited r n =
      let (w, answer) = call_node is_find_value r.world n target in
      receive visited (record r { world = w }) answer

  unfoldable pub ask_all : Bool → NodeId → List NodeId → Round → List NetworkNode → Round
  ask_all is_find_value target visited r [] = r
  ask_all is_find_value target visited r (n ∷ ns) =
      ask_all is_find_value target visited (ask is_find_value target visited r n) ns

  -- The state of the loop.
  pub record Search : Type 0 where
    pub world : World
    pub node : Node
    pub visited : List NodeId
    pub closest : List NetworkNode

  -- The nodes of a round are visited before an answer comes.
  unfoldable pub run_round : Bool → NodeId → Search → List NetworkNode → List NodeId × Round
  run_round is_find_value target s to_query =
      let visited = ids to_query ++ s.visited in
      let (w, order) = schedule s.world to_query in
      (
        visited,
        ask_all is_find_value target visited
            (record { world = w; node = s.node; new_nodes = []; found = none }) order,
      )

  unfoldable pub after_round : NodeId → Search → List NodeId × Round → Search
  after_round target s (visited, r) = record {
    world = r.world;
    node = r.node;
    visited = visited;
    closest = take k (sort_nodes target (s.closest ++ r.new_nodes));
  }

  -- The state at the end, with the map `visited`, and what is returned.
  pub record Done : Type 0 where
    pub world : World
    pub node : Node
    pub visited : List NodeId
    pub result : SearchResult

  unfoldable pub finish : Search → SearchResult → Done
  finish s result = record { world = s.world; node = s.node; visited = s.visited; result = result }

  -- A pass of the loop: the search ends, or goes on with the next state.
  pub data Pass : Type 0 where
    ends : Done → Pass
    goes_on : Search → Pass

  unfoldable pub after_found : NodeId → Search → List NodeId × Round → Option ValueMeta → Pass
  unfolding finish
  after_found target s (visited, r) (some value) = ends (record {
    world = r.world;
    node = r.node;
    visited = visited;
    result = record { nodes = []; value = some value; error = none };
  })
  after_found target s (visited, r) none = goes_on (after_round target s (visited, r))

  unfoldable pub query : Bool → NodeId → Search → List NetworkNode → Pass
  unfolding finish
  query is_find_value target s [] =
      ends (finish s (record { nodes = s.closest; value = none; error = end_error is_find_value }))
  query is_find_value target s (n ∷ ns) =
      let r = run_round is_find_value target s (n ∷ ns) in after_found target s r r.1.found

  unfoldable pub pass : Bool → NodeId → Search → Pass
  unfolding finish
  pass is_find_value target s = elim (context_error s.world) [
    | some e ↦ ends (finish s (record { nodes = s.closest; value = none; error = some e }))
    | none ↦ query is_find_value target s (select alpha s.visited s.closest)
  ]

  -- `none` means that the fuel ran out.
  unfoldable pub search_loop : ℕ → Bool → NodeId → Search → Option Done
  search_loop zero is_find_value target s = none
  search_loop (suc fuel) is_find_value target s = elim (pass is_find_value target s) [
    | ends d ↦ some d
    | goes_on s' ↦ search_loop fuel is_find_value target s'
  ]

  -- The loop, if there is a node to begin with.
  search_from : ℕ → Bool → NodeId → World → Node → List NetworkNode → Option Done
  search_from fuel is_find_value target w node [] = some (record {
    world = w;
    node = node;
    visited = [];
    result = record { nodes = []; value = none; error = some empty_table };
  })
  search_from fuel is_find_value target w node (n ∷ ns) =
      search_loop fuel is_find_value target
        (record { world = w; node = node; visited = []; closest = n ∷ ns })

  unfoldable pub iterative_search : ℕ → World → Node → NodeId → Bool → Option Done
  unfolding search_from
  iterative_search fuel w node target is_find_value =
      search_from fuel is_find_value target w node
        (without_self node.self.id (find_closest node.rt target k))
