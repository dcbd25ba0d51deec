-- ===== src/Webrtc/Peers/Overlap/Closed.antt =====
-- transport/webrtc/webrtc.go: `Close` leaves no connection open, though operations ran at once.
use webrtc_dht.Prelude.{ℕ, ◌≡◌, refl, ◌∙◌, ◌≢◌, inl, inr, true, false, none, [], eq_of_some}
use webrtc_dht.Prelude.Assoc
use webrtc_dht.Key.{NodeId, key_eq}
use webrtc_dht.Types.{NetworkNode}
use webrtc_dht.Signaling.{SignalPayload}
use webrtc_dht.Webrtc.Peers.{Pion, Peers, close_transport}
use webrtc_dht.Webrtc.Peers.Leaks.{IsPion}
use webrtc_dht.Webrtc.Peers.Closing.{close_transport-IsKept}
use webrtc_dht.Webrtc.Peers.Overlap.{
  calling, serving, peer_of, looking, opening, Task, advance, with_task,
}
use webrtc_dht.Webrtc.Peers.Overlap.Moved.{stage_step-IsMoved}
use webrtc_dht.Webrtc.Peers.Overlap.Well.{IsIdle, IsAlone, IsWell, begun-IsWell, moved-IsWell}

module _ (P : Pion) (laws : IsPion P) (own : NodeId) where
  open P use {World}
  open laws use {is_open}

  -- What a transport does until it is closed, in any order: calls and offers begin, each goes on
  -- step by step, and meanwhile connections may close. A call connects only if no other task
  -- connects to the peer then, and an offer comes only from a caller to which there is no
  -- connection, made or in the making.
  pub data Overlaps : World → Peers → (ℕ → Task) → Type 0 where
    start :
        (w : World) (tasks : ℕ → Task)
        → ((d : ℕ) → is_open w d ≢ true)
        → ((i : ℕ) → IsIdle (tasks i).stage)
        → Overlaps w [] tasks
    calls :
        {w : World} {peers : Peers} {tasks : ℕ → Task} (i : ℕ) (target : NetworkNode)
        → IsIdle (tasks i).stage
        → Overlaps w peers tasks
        → Overlaps w peers (with_task i (record { errand = calling target; stage = looking }) tasks)
    serves :
        {w : World} {peers : Peers} {tasks : ℕ → Task} (i : ℕ) (payload : SignalPayload)
        → IsIdle (tasks i).stage
        → Assoc.lookup key_eq payload.caller_id peers ≡ none
        → IsAlone payload.caller_id i tasks
        → Overlaps w peers tasks
        → Overlaps w peers
            (with_task i (record { errand = serving payload; stage = opening }) tasks)
    steps :
        {w : World} {peers : Peers} {tasks : ℕ → Task} (i : ℕ)
        → ((tasks i).stage ≡ looking
            → Assoc.lookup key_eq (peer_of (tasks i).errand) peers ≡ none
            → IsAlone (peer_of (tasks i).errand) i tasks)
        → Overlaps w peers tasks
        → Overlaps
            (advance P own (tasks i).errand w peers (tasks i).stage).0
            (advance P own (tasks i).errand w peers (tasks i).stage).1
            (with_task i
              (record {
                errand = (tasks i).errand;
                stage = (advance P own (tasks i).errand w peers (tasks i).stage).2;
              })
              tasks)
    passes :
        {w : World} {peers : Peers} {tasks : ℕ → Task} (w' : World)
        → ((d : ℕ) → is_open w' d ≡ true → is_open w d ≡ true)
        → Overlaps w peers tasks
        → Overlaps w' peers tasks

  Overlaps-IsWell :
      {w : World} {peers : Peers} {tasks : ℕ → Task}
      → Overlaps w peers tasks
      → IsWell P laws w peers tasks
  unfolding advance
  Overlaps-IsWell (start w tasks none_open idle) = record {
    known = λ d o. absurd (none_open d o);
    fit = λ i m e. absurd (cc ((idle i).0, e));
    apart = λ i busy. absurd (busy (idle i).0);
  }
  Overlaps-IsWell (calls i target idle r) =
      begun-IsWell P laws (Overlaps-IsWell r) i _ idle (λ m e. absurd (cc))
        (λ busy. absurd (busy refl))
  Overlaps-IsWell (serves i payload idle absent alone r) =
      begun-IsWell P laws (Overlaps-IsWell r) i _ idle (λ m e. absent ∙ eq_of_some e)
        (λ busy. alone)
  Overlaps-IsWell (steps {w} {peers} {tasks} i alone r) =
      let well = Overlaps-IsWell r in
      moved-IsWell P laws well i _ _ _
        (stage_step-IsMoved P laws (tasks i).errand w peers own (tasks i).stage (well.fit i)) alone
  Overlaps-IsWell (passes w' fewer r) =
      let well = Overlaps-IsWell r in
      record { known = λ d o. well.known d (fewer d o); fit = well.fit; apart = well.apart }

  -- However operations of a transport ran at once, step by step and in whatever order, with
  -- whatever failures of a library that opens no connection but a new one: once no task connects
  -- any more, Close leaves none of the connections open and none in the map; as long as no two
  -- tasks connect to the same peer at once, and no offer comes from a caller to which there is a
  -- connection already.
  pub close_transport-Overlaps :
      {w : World} {peers : Peers} {tasks : ℕ → Task} (d : ℕ)
      → Overlaps w peers tasks
      → ((i : ℕ) → IsIdle (tasks i).stage)
      → (is_open (close_transport P w peers).0 d ≡ false) × ((close_transport P w peers).1 ≡ [])
  close_transport-Overlaps {w} {peers} d r idle = close_transport-IsKept P laws w peers d (λ c o.
      elim ((Overlaps-IsWell r).known c o) [
        | inl (i, h) ↦ absurd (cc ((idle i).1, h))
        | inr there ↦ there
      ])
