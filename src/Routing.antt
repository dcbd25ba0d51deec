-- ===== src/Routing.antt =====
-- dht/routing_table.go: the table of contacts, 160 buckets of at most `k` contacts each, the
-- contact seen longest ago first.
-- `Add` gives up its lock while it pings, so it is two steps: `add_locked` up to the ping, and
-- `add_resume` after it. A table of the program also holds the ping function; the model passes it
-- to `add`, and keeps whether it is set.
pub mod Bucket
pub mod Cases
pub mod Invariant
pub mod Add
pub mod Effect
pub mod Closest
pub mod Concurrent
use webrtc_dht.Prelude.{
  ℕ, ◌-◌, Bool, true, false, Option, none, some, List, [], ◌∷◌, ◌++◌, ite, ltb, ◌==◌, if◌then◌else◌,
  length, get_or, set, take, replicate, map,
}
use webrtc_dht.Prelude.BitLen.{bit_len}
use webrtc_dht.Prelude.Sort.{sort_by}
use mathlib.Core.Option
use mathlib.Core.List.{flatten}
use webrtc_dht.Key.{NodeId, key_eq, get_key_distance}
use webrtc_dht.Types.{NetworkNode}

-- The constant `K`.
abbrev pub k : ℕ
k = 20

pub record RoutingTable : Type 0 where
  pub node_id : NodeId
  pub buckets : List (List NetworkNode)
  pub has_ping : Bool

unfoldable pub new_routing_table : NodeId → RoutingTable
new_routing_table id = record { node_id = id; buckets = replicate 160 []; has_ping = false }

unfoldable pub set_ping : RoutingTable → RoutingTable
set_ping rt = record rt { has_ping = true }

unfoldable pub index_for : NodeId → NodeId → ℕ
index_for own target =
    let bits = bit_len (get_key_distance own target) in if bits == 0 then 0 else bits - 1

abbrev pub bucket_index : RoutingTable → NodeId → ℕ
bucket_index rt target = index_for rt.node_id target

-- The loop over a bucket: the bucket without the first contact of that id, if there is one.
unfoldable pub without : NodeId → List NetworkNode → Option (List NetworkNode)
without id [] = none
without id (n ∷ ns) = ite (key_eq n.id id) (some ns) (Option.map (λ rest. n ∷ rest) (without id ns))

-- A ping that an `Add` has started: the bucket, its first contact then, and the new contact.
pub record Pending : Type 0 where
  pub index : ℕ
  pub lrs : NetworkNode
  pub node : NetworkNode

-- A bucket of `k` contacts is not empty, so the first clause is not reached.
full_bucket : RoutingTable → ℕ → List NetworkNode → NetworkNode → RoutingTable × Option Pending
full_bucket rt idx [] node = (rt, none)
full_bucket rt idx (lrs ∷ rest) node = (rt, some (record { index = idx; lrs = lrs; node = node }))

-- `Add` from its start to its return or to the ping.
unfoldable pub add_locked : RoutingTable → NetworkNode → RoutingTable × Option Pending
unfolding full_bucket
add_locked rt node =
    let idx = bucket_index rt node.id in
    let bucket = get_or rt.buckets idx [] in
    ite (key_eq rt.node_id node.id) (rt, none)
      (elim (without node.id bucket) [
        | some rest ↦ (record rt { buckets = set rt.buckets idx (rest ++ node ∷ []) }, none)
        | none ↦
            if ltb (length bucket) k
            then (record rt { buckets = set rt.buckets idx (bucket ++ node ∷ []) }, none)
            else full_bucket rt idx bucket node
      ])

-- `Add` after the ping: the contact that was pinged, if it still is in the bucket, is moved to the
-- end, or replaced by the new one.
unfoldable pub add_resume : RoutingTable → Pending → Bool → RoutingTable
add_resume rt p alive = elim (without p.lrs.id (get_or rt.buckets p.index [])) [
  | none ↦ rt
  | some rest ↦ record rt {
    buckets = set rt.buckets p.index (rest ++ (if alive then p.lrs else p.node) ∷ []);
  }
]

-- The whole of `Add` where no other goroutine comes between. `ping` may change the world.
unfoldable pub add :
    {W : Type 0} → (W → NetworkNode → W × Bool) → W → RoutingTable → NetworkNode → W × RoutingTable
add ping w rt node =
    let (rt', waiting) = add_locked rt node in
    elim waiting [
      | none ↦ (w, rt')
      | some p ↦
          if rt'.has_ping
          then (let (w', alive) = ping w p.lrs in (w', add_resume rt' p alive))
          else (w, add_resume rt' p false)
    ]

pub record NodeDistance : Type 0 where
  pub node : NetworkNode
  pub distance : ℕ

abbrev pub measure : NodeId → NetworkNode → NodeDistance
measure target n = record { node = n; distance = get_key_distance n.id target }

unfoldable pub find_closest : RoutingTable → NodeId → ℕ → List NetworkNode
find_closest rt target count =
    let all = map (measure target) (flatten rt.buckets) in
    map (λ d. d.node) (take count (sort_by (λ d. d.distance) all))
