-- ===== src/Webrtc/Peers/Overlap.antt =====
-- transport/webrtc/webrtc.go: `getPeer`, `connect` and `handleIncomingOffer` when several of them
-- run at once. Each is a task that goes from stage to stage: one call of the library, or one
-- access to the map under its lock, at a time.
pub mod Alone
pub mod Kept
pub mod Moved
pub mod Well
pub mod Closed
pub mod Lost
use webrtc_dht.Prelude.{
  ℕ, zero, suc, Bool, true, false, Option, none, some, Text, codes, ◌++◌, ite, ℕ_discrete,
}
use webrtc_dht.Prelude.Assoc
use webrtc_dht.Key.{NodeId, key_eq}
use webrtc_dht.Key.Hex.{hex_encode}
use webrtc_dht.Types.{Error, message, wrapped, Result, ok, err, NetworkNode}
use webrtc_dht.Signaling.{SignalPayload}
use webrtc_dht.Webrtc.Peers.{Pion, Peers, label_control, label_blob}

-- What a task is for: a call of `getPeer`, or an offer that came.
pub data Errand : Type 0 where
  calling : NetworkNode → Errand
  serving : SignalPayload → Errand

abbrev pub peer_of : Errand → NodeId
peer_of (calling target) = target.id
peer_of (serving payload) = payload.caller_id

-- What a task does next, with the connection that it has; the last three are its ends.
pub data Stage : Type 0 where
  looking : Stage
  opening : Stage
  adding_control : ℕ → Stage
  adding_blob : ℕ → Stage
  offering : ℕ → Stage
  accepting : ℕ → Text → Stage
  replying : ℕ → Stage
  describing : ℕ → Text → Stage
  placing : ℕ → Stage
  signaling : NetworkNode → ℕ → Stage
  answering : ℕ → Text → Stage
  removing : ℕ → Error → Stage
  closing : ℕ → Error → Stage
  awaiting : ℕ → Stage
  checking : ℕ → Stage
  failed : Error → Stage
  connected : ℕ → Stage
  replied : Text → Stage

pub record Task : Type 0 where
  pub errand : Errand
  pub stage : Stage

-- The map after a step: only two stages write it.
abbrev pub peers_step : NodeId → Peers → Stage → Peers
peers_step peer peers (placing pc) = Assoc.assign key_eq peer pc peers
peers_step peer peers (removing pc e) = Assoc.remove key_eq peer peers
peers_step peer peers looking = peers
peers_step peer peers opening = peers
peers_step peer peers (adding_control pc) = peers
peers_step peer peers (adding_blob pc) = peers
peers_step peer peers (offering pc) = peers
peers_step peer peers (accepting pc sdp) = peers
peers_step peer peers (replying pc) = peers
peers_step peer peers (describing pc sdp) = peers
peers_step peer peers (signaling target pc) = peers
peers_step peer peers (answering pc sdp) = peers
peers_step peer peers (closing pc e) = peers
peers_step peer peers (awaiting pc) = peers
peers_step peer peers (checking pc) = peers
peers_step peer peers (failed e) = peers
peers_step peer peers (connected pc) = peers
peers_step peer peers (replied sdp) = peers

abbrev pub entry_stage : Option ℕ → Stage
entry_stage none = opening
entry_stage (some pc) = checking pc

abbrev pub opened_for : Errand → ℕ → Stage
opened_for (calling target) pc = adding_control pc
opened_for (serving payload) pc = accepting pc payload.sdp

module _ (P : Pion) where
  open P use {
    World, new_pc, create_data_channel, create_offer, create_answer, set_local, local_sdp,
    set_remote_offer, set_remote_answer, wait_control, close_pc, send_offer,
  }

  abbrev pub opened : Errand → World × Result ℕ → World × Stage
  opened errand (w, err e) = (w, failed e)
  opened errand (w, ok pc) = (w, opened_for errand pc)

  -- The next stage, or the one that an error leads to.
  abbrev pub unless_failed : (Error → Stage) → Stage → World × Option Error → World × Stage
  unless_failed on_error next (w, some e) = (w, on_error e)
  unless_failed on_error next (w, none) = (w, next)

  abbrev pub with_text : (Error → Stage) → (Text → Stage) → World × Result Text → World × Stage
  with_text on_error next (w, err e) = (w, on_error e)
  with_text on_error next (w, ok text) = (w, next text)

  abbrev pub once_ready : ℕ → Text → World × Bool → World × Stage
  once_ready pc text (w, true) = (w, connected pc)
  once_ready pc text (w, false) = (w, failed (message text))

  abbrev pub placed_stage : Errand → ℕ → World → Stage
  placed_stage (calling target) pc w = signaling target pc
  placed_stage (serving payload) pc w = replied (local_sdp w pc)

  module _ (own : NodeId) where
    -- The world and the stage after a step of a task.
    unfoldable pub stage_step : Errand → World → Peers → Stage → World × Stage
    stage_step errand w peers looking =
        (w, entry_stage (Assoc.lookup key_eq (peer_of errand) peers))
    stage_step errand w peers opening = opened errand (new_pc w)
    stage_step errand w peers (adding_control pc) =
        unless_failed (closing pc) (adding_blob pc) (create_data_channel w pc label_control)
    stage_step errand w peers (adding_blob pc) =
        unless_failed (closing pc) (offering pc) (create_data_channel w pc label_blob)
    stage_step errand w peers (offering pc) =
        with_text (closing pc) (describing pc) (create_offer w pc)
    stage_step errand w peers (accepting pc sdp) =
        unless_failed (closing pc) (replying pc) (set_remote_offer w pc sdp)
    stage_step errand w peers (replying pc) =
        with_text (closing pc) (describing pc) (create_answer w pc)
    stage_step errand w peers (describing pc sdp) =
        unless_failed (closing pc) (placing pc) (set_local w pc sdp)
    stage_step errand w peers (placing pc) = (w, placed_stage errand pc w)
    stage_step errand w peers (signaling target pc) =
        with_text (λ e. removing pc (wrapped (codes "signaling: ") e)) (answering pc)
          (send_offer w target (record { caller_id = own; sdp = local_sdp w pc }))
    stage_step errand w peers (answering pc sdp) =
        unless_failed (removing pc) (awaiting pc) (set_remote_answer w pc sdp)
    stage_step errand w peers (removing pc e) = (w, closing pc e)
    stage_step errand w peers (closing pc e) = ((close_pc w pc).0, failed e)
    stage_step errand w peers (awaiting pc) =
        once_ready pc (codes "timeout waiting for data channel to open") (wait_control w pc)
    stage_step errand w peers (checking pc) =
        once_ready pc
          (codes "peer " ++ hex_encode (peer_of errand) ++ codes ": control channel not ready")
          (wait_control w pc)
    stage_step errand w peers (failed e) = (w, failed e)
    stage_step errand w peers (connected pc) = (w, connected pc)
    stage_step errand w peers (replied sdp) = (w, replied sdp)

    -- A step of a task: the world, the map and the stage after it.
    unfoldable pub advance : Errand → World → Peers → Stage → World × Peers × Stage
    unfolding stage_step
    advance errand w peers stage =
        let (w', next) = stage_step errand w peers stage in
        (w', peers_step (peer_of errand) peers stage, next)

-- The tasks, by number; one of them replaced.
unfoldable pub with_task : ℕ → Task → (ℕ → Task) → ℕ → Task
with_task zero task tasks zero = task
with_task zero task tasks (suc j) = tasks (suc j)
with_task (suc i) task tasks zero = tasks zero
with_task (suc i) task tasks (suc j) = with_task i task (λ k. tasks (suc k)) j
