-- ===== src/Tests/Routing.antt =====
-- The theorems of the routing table, applied.
use webrtc_dht.Prelude.{
  ℕ, suc, ◌≡◌, refl, subst, ◌≢◌, Bool, true, [], ◌∷◌, replicate, arith, get_or, set,
}
use webrtc_dht.Prelude.BitLen.{bit_len}
use webrtc_dht.Prelude.Sort.{sort_by}
use webrtc_dht.Key.{get_key_distance, set_bytes, key_eq}
use mathlib.Core.List.{flatten}
use webrtc_dht.Types.{NetworkNode}
use webrtc_dht.Routing.{
  RoutingTable, new_routing_table, index_for, bucket_index, without, add_locked, add, find_closest,
}
use webrtc_dht.Routing.Invariant.{IsValid, new_routing_table-IsValid, IsValid-IsPlaced}
use webrtc_dht.Routing.Add.{add-IsValid}
use webrtc_dht.Routing.Effect.{see, responds, add-see}
use webrtc_dht.Routing.Closest.{contacts, IsClosest, find_closest-IsClosest}
use webrtc_dht.Routing.Concurrent.{Shared, enter, enters, Reach, here, next, IsSafe, Reach-IsSafe}
use webrtc_dht.Tests.Data.{key, key-IsKey, peer, table}

abbrev ping : ℕ → NetworkNode → ℕ × Bool
ping w n = (suc w, true)

index_of_two : index_for (key 1) (key 2) ≡ 1
unfolding index_for bit_len get_key_distance set_bytes
index_of_two = refl

nearest_two : find_closest table (key 3) 2 ≡ peer 3 ∷ peer 2 ∷ []
unfolding find_closest get_key_distance set_bytes sort_by flatten
nearest_two = refl

abbrev start : RoutingTable
start = record { node_id = key 1; buckets = replicate 160 []; has_ping = true }

start-IsValid : IsValid start
unfolding new_routing_table
start-IsValid =
    let v = new_routing_table-IsValid (key-IsKey 1 (omega arith)) in
    record { is_key = v.is_key; count = v.count; each = v.each }

built : (add ping 0 (add ping 0 start (peer 2)).1 (peer 3)).1 ≡ table
unfolding add add_locked without index_for bit_len get_key_distance set_bytes key_eq
built = refl

pub table-IsValid : IsValid table
table-IsValid = subst IsValid built (
    add-IsValid ping 0 (add ping 0 start (peer 2)).1 (peer 3)
      (add-IsValid ping 0 start (peer 2) start-IsValid (key-IsKey 2 (omega arith)))
      (key-IsKey 3 (omega arith)))

add-IsValid_example : IsValid (add ping 0 table (peer 2)).1
add-IsValid_example = add-IsValid ping 0 table (peer 2) table-IsValid (key-IsKey 2 (omega arith))

one_is_not_two : key 1 ≢ key 2
one_is_not_two e = cc

add-see_example : (add ping 0 table (peer 2)).1 ≡ record table {
  buckets =
      set table.buckets (bucket_index table (key 2)) (
        see
          (get_or table.buckets (bucket_index table (key 2)) [])
          (peer 2)
          (responds ping 0 table));
}
add-see_example = add-see ping 0 table (peer 2) one_is_not_two

find_closest-IsClosest_example : IsClosest (contacts table) (find_closest table (key 3) 1) (key 3) 1
find_closest-IsClosest_example = find_closest-IsClosest table (key 3) 1

abbrev shared : Shared
shared = record { table = table; waiting = [] }

shared-IsSafe : IsSafe shared
shared-IsSafe = record { placed = IsValid-IsPlaced table-IsValid; pending = tt }

two_calls : Reach shared (enter (enter shared (peer 2)) (peer 5))
two_calls =
    next (next here (enters shared (peer 2) (key-IsKey 2 (omega arith))))
      (enters (enter shared (peer 2)) (peer 5) (key-IsKey 5 (omega arith)))

Reach-IsSafe_example : IsSafe (enter (enter shared (peer 2)) (peer 5))
Reach-IsSafe_example = Reach-IsSafe two_calls shared-IsSafe
