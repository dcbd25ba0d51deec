-- ===== src/Tests/Overlap.antt =====
-- Operations of a transport over WebRTC at once, tried on a small library, and calls from one end to
-- the other.
use webrtc_dht.Prelude.{
  none, ℕ, zero, suc, ◌≡◌, refl, ◌≢◌, true, false, some, [], All, not, Option, codes, ◌&&◌, ◌==◌,
  ap, get_or, arith,
}
use webrtc_dht.Prelude.Assoc
use webrtc_dht.Key.{key_eq}
use webrtc_dht.Webrtc.Peers.{Peers, close_transport}
use webrtc_dht.Webrtc.Peers.Overlap.{
  Task, calling, looking, placing, connected, advance, with_task, stage_step,
}
use webrtc_dht.Webrtc.Peers.Overlap.Closed.{Overlaps, start, calls, steps, close_transport-Overlaps}
use webrtc_dht.Webrtc.Peers.Overlap.Well.{IsIdle, IsAlone}
use webrtc_dht.Webrtc.Peers.Overlap.Lost.{placing-lost}
use webrtc_dht.Types.{Result}
use webrtc_dht.Node.{Node, on_ping, on_store, on_find_node, on_find_value}
use webrtc_dht.Udp.{rpc_ping}
use webrtc_dht.Json.{wire_value, wired_nodes, wired_value}
use webrtc_dht.Udp.Calls.{or_nothing}
use webrtc_dht.Webrtc.Control.{
  RpcMessage, rpc_message, PeerConn, new_peer_conn, Reply, store_rpc, find_node_rpc, find_value_rpc,
  rpc_error, rpc_nodes, rpc_value,
}
use webrtc_dht.Webrtc.Control.Answers.{call, read_by, on_control_msg_lem}
use webrtc_dht.Tests.Codec.{formats}
use webrtc_dht.Tests.Node.{node}
use webrtc_dht.Tests.Data.{key, peer, net, inline_value}
use webrtc_dht.Tests.Webrtc.{pion, laws, unused, none_open}

abbrev Tasks : Type 0
Tasks = ℕ → Task

abbrev resting : Tasks
resting i = record { errand = calling (peer 1); stage = connected 0 }

abbrev asked : Tasks
asked =
    with_task 1 (record { errand = calling (peer 3); stage = looking })
      (with_task 0 (record { errand = calling (peer 2); stage = looking }) resting)

-- A state, and the state after a step of a task.
record State : Type 0 where
  world : pion.World
  peers : Peers
  tasks : Tasks

abbrev step : ℕ → State → State
step i s =
    let (w, peers, next) =
      advance pion (key 1) (s.tasks i).errand s.world s.peers (s.tasks i).stage in
    record {
      world = w;
      peers = peers;
      tasks = with_task i (record { errand = (s.tasks i).errand; stage = next }) s.tasks;
    }

distinct_keys : key 3 ≢ key 2
distinct_keys e = let c : ◌≡◌ {A = ℕ} 3 2 = ap (λ k. get_or k 19 0) e in omega arith

abbrev before : State
before = record { world = unused; peers = []; tasks = asked }

-- Both look before either has put its connection into the map, and they go on in turn.
abbrev both : State → State
both s = step 1 (step 0 s)

abbrev after : State
after = both (both (both (both (both (both (both (both (both before))))))))

abbrev Comes : State → Type 0
Comes s = Overlaps pion laws (key 1) s.world s.peers s.tasks

abbrev IsOn : State → ℕ → Type 0
IsOn s i = (s.tasks i).stage ≢ looking

step-Comes : (i : ℕ) (s : State) → IsOn s i → Comes s → Comes (step i s)
step-Comes i s on r = steps i (λ e. absurd (on e)) r

both-Comes : (s : State) → IsOn s 0 → IsOn (step 0 s) 1 → Comes s → Comes (both s)
both-Comes s on₀ on₁ r = step-Comes 1 (step 0 s) on₁ (step-Comes 0 s on₀ r)

asked-Comes : Comes before
unfolding with_task
asked-Comes =
    calls 1 (peer 3) (refl, refl)
      (calls 0 (peer 2) (refl, refl) (start unused resting none_open (λ i. (refl, refl))))

-- At first none connects, and then the first task connects to the peer 2.
none_connects : IsAlone (key 2) 0 asked
unfolding with_task
none_connects zero ne busy = absurd (ne refl)
none_connects (suc zero) ne busy = absurd (busy refl)
none_connects (suc (suc j)) ne busy = absurd (busy refl)

one_connects : IsAlone (key 3) 1 (step 0 before).tasks
unfolding with_task advance stage_step
one_connects zero ne busy = distinct_keys
one_connects (suc zero) ne busy = absurd (ne refl)
one_connects (suc (suc j)) ne busy = absurd (busy refl)

looked-Comes : Comes (both before)
unfolding with_task advance stage_step Assoc.lookup
looked-Comes = steps 1 (λ e absent. one_connects) (steps 0 (λ e absent. none_connects) asked-Comes)

after-Comes : Comes after
unfolding with_task advance stage_step Assoc.lookup
after-Comes =
    both-Comes _ (λ e. cc) (λ e. cc)
      (both-Comes _ (λ e. cc) (λ e. cc)
        (both-Comes _ (λ e. cc) (λ e. cc)
          (both-Comes _ (λ e. cc) (λ e. cc)
            (both-Comes _ (λ e. cc) (λ e. cc)
              (both-Comes _ (λ e. cc) (λ e. cc)
                (both-Comes _ (λ e. cc) (λ e. cc)
                  (both-Comes _ (λ e. cc) (λ e. cc) looked-Comes)))))))

after-IsIdle : (i : ℕ) → IsIdle (after.tasks i).stage
unfolding with_task advance stage_step Assoc.lookup
after-IsIdle zero = (refl, refl)
after-IsIdle (suc zero) = (refl, refl)
after-IsIdle (suc (suc i)) = (refl, refl)

close_transport-Overlaps_example :
    (laws.is_open (close_transport pion after.world after.peers).0 1 ≡ false)
    × ((close_transport pion after.world after.peers).1 ≡ [])
close_transport-Overlaps_example =
    close_transport-Overlaps pion laws (key 1) 1 after-Comes after-IsIdle

-- The library closes only what it is to close.
spares : (w : pion.World) (c d : ℕ) → c ≢ d → w.0 d ≡ true → (not (c == d) && w.0 d) ≡ true
spares w c d ne o = ground arith

abbrev two_open : pion.World
two_open = ((λ d. true), 2)

placing-lost_example :
    let (w₁, peers₁, next₁) = advance pion (key 1) (calling (peer 2)) two_open [] (placing 0) in
    let (w₂, peers₂, next₂) = advance pion (key 1) (calling (peer 2)) w₁ peers₁ (placing 1) in
    (Assoc.lookup key_eq (key 2) peers₂ ≡ some 1)
    × All (λ p. p.1 ≢ 0) peers₂
    × (laws.is_open (close_transport pion w₂ peers₂).0 0 ≡ true)
placing-lost_example =
    placing-lost pion laws spares (key 1) (calling (peer 2)) (calling (peer 2)) 0 1 two_open [] refl
      (λ e. omega (arith, e)) tt refl

-- A call of the contact 9 at the node of the other tests, over a new connection.
abbrev call_of : RpcMessage → ℕ × Option Node × PeerConn × Reply
call_of =
    call formats (net none) (λ a. a) (peer 1) (peer 9) 0 node (codes "id") (new_peer_conn 0)
      (new_peer_conn 1)

abbrev reads :
    {A : Type 0}
    → (Result RpcMessage → A)
    → ℕ × Option Node × PeerConn × Reply
    → ℕ × Option Node × PeerConn × A
reads =
    read_by formats (net none) (λ a. a) (peer 1) (peer 9) 0 node (codes "id") (new_peer_conn 0)
      (new_peer_conn 1)

on_control_msg_lem_example :
    let pinged = on_ping formats (net none) 0 node (some (peer 9)) in
    let stored =
      on_store formats (net none) 0 node (some (peer 9)) (key 4) (wire_value inline_value) in
    let nodes = on_find_node formats (net none) 0 node (some (peer 9)) (key 3) in
    let found = on_find_value formats (net none) 0 node (some (peer 9)) (key 4) in
    (reads rpc_error (call_of (rpc_message rpc_ping))
      ≡ (pinged.0, some pinged.1, new_peer_conn 1, pinged.2))
    × (reads rpc_error (call_of (store_rpc (key 4) inline_value))
        ≡ (stored.0, some stored.1, new_peer_conn 1, stored.2))
    × (reads rpc_nodes (call_of (find_node_rpc (key 3)))
        ≡ (nodes.0, some nodes.1, new_peer_conn 1, wired_nodes (λ a. a) nodes.2))
    × (reads rpc_value (call_of (find_value_rpc (key 4)))
        ≡ (found.0, some found.1, new_peer_conn 1, or_nothing (wired_value (λ a. a) found.2)))
on_control_msg_lem_example =
    on_control_msg_lem formats (net none) (λ a. a) (peer 1) (peer 9) 0 node (codes "id")
      (new_peer_conn 0) (new_peer_conn 1) (key 3) (key 4) inline_value
