-- ===== src/Webrtc/Peers/Overlap/Alone.antt =====
-- transport/webrtc/webrtc.go: a task with no other in between is a call of `getPeer` or of
-- `handleIncomingOffer`, as a whole.
use webrtc_dht.Prelude.{ℕ, Bool, true, false, Option, none, some, Text, codes, ◌++◌}
use webrtc_dht.Prelude.Assoc
use webrtc_dht.Key.{key_eq}
use webrtc_dht.Key.Hex.{hex_encode}
use webrtc_dht.Types.{Error, wrapped, Result, ok, err, NetworkNode}
use webrtc_dht.Signaling.{SignalPayload}
use webrtc_dht.Webrtc.Peers.{
  Pion, Peers, waited, answered, offered, described, created, with_blob, with_control, made,
  connect, ready, peer_at, get_peer, answer_set, answer_made, offer_set, callee_made,
  handle_incoming_offer, label_control, label_blob,
}
use webrtc_dht.Webrtc.Peers.Overlap.{
  Errand, calling, serving, Stage, looking, opening, adding_blob, offering, replying, describing,
  placing, answering, removing, closing, awaiting, failed, connected, replied, opened,
  unless_failed, with_text, once_ready, entry_stage, stage_step, advance,
}

module _ (P : Pion) (own : NetworkNode) where
  open P use {World}

  -- The steps of a task with no other in between, up to a state.
  pub data Runs (errand : Errand) (end : World × Peers × Stage)
      : World → Peers → Stage → Type 0 where
    ends : Runs errand end end.0 end.1 end.2
    next :
        {w : World} {peers : Peers} {stage : Stage}
        → Runs errand end
            (advance P own.id errand w peers stage).0
            (advance P own.id errand w peers stage).1
            (advance P own.id errand w peers stage).2
        → Runs errand end w peers stage

  -- How a call ends, and how an offer is answered.
  abbrev pub as_call : World × Peers × Result ℕ → World × Peers × Stage
  as_call (w, peers, err e) = (w, peers, failed e)
  as_call (w, peers, ok pc) = (w, peers, connected pc)

  abbrev pub as_reply : World × Peers × Result Text → World × Peers × Stage
  as_reply (w, peers, err e) = (w, peers, failed e)
  as_reply (w, peers, ok sdp) = (w, peers, replied sdp)

  closing-ends :
      (errand : Errand) (w : World) (peers : Peers) (pc : ℕ) (e : Error)
      → Runs errand ((P.close_pc w pc).0, peers, failed e) w peers (closing pc e)
  unfolding advance stage_step
  closing-ends errand w peers pc e = next ends

  module _ (target : NetworkNode) (pc : ℕ) where
    -- After a step that failed or not, the task ends as the rest of the call does.
    abbrev Calls : World × Stage → Peers → World × Peers × Result ℕ → Type 0
    Calls now peers end = Runs (calling target) (as_call end) now.0 peers now.1

    awaiting-waited :
        (peers : Peers) (r : World × Bool)
        → Calls
            (once_ready P pc (codes "timeout waiting for data channel to open") r)
            peers
            (waited P own target peers pc r)
    unfolding waited
    awaiting-waited peers (w, true) = ends
    awaiting-waited peers (w, false) = ends

    answering-answered :
        (peers : Peers) (r : World × Option Error)
        → Calls
            (unless_failed P (removing pc) (awaiting pc) r)
            peers
            (answered P own target peers pc r)
    unfolding advance stage_step answered
    answering-answered peers (w, some e) = next (closing-ends (calling target) w _ pc e)
    answering-answered peers (w, none) = next (awaiting-waited peers (P.wait_control w pc))

    signaling-offered :
        (peers : Peers) (r : World × Result Text)
        → Calls
            (with_text P (λ e. removing pc (wrapped (codes "signaling: ") e)) (answering pc) r)
            peers
            (offered P own target peers pc r)
    unfolding advance stage_step offered
    signaling-offered peers (w, err e) =
        next (closing-ends (calling target) w _ pc (wrapped (codes "signaling: ") e))
    signaling-offered peers (w, ok sdp) =
        next (answering-answered peers (P.set_remote_answer w pc sdp))

    placing-described :
        (peers : Peers) (r : World × Option Error)
        → Calls
            (unless_failed P (closing pc) (placing pc) r)
            peers
            (described P own target peers pc r)
    unfolding advance stage_step described
    placing-described peers (w, some e) = closing-ends (calling target) w peers pc e
    placing-described peers (w, none) =
        next (next (signaling-offered (Assoc.assign key_eq target.id pc peers) _))

    describing-created :
        (peers : Peers) (r : World × Result Text)
        → Calls (with_text P (closing pc) (describing pc) r) peers (created P own target peers pc r)
    unfolding advance stage_step created
    describing-created peers (w, err e) = closing-ends (calling target) w peers pc e
    describing-created peers (w, ok sdp) = next (placing-described peers (P.set_local w pc sdp))

    offering-with_blob :
        (peers : Peers) (r : World × Option Error)
        → Calls
            (unless_failed P (closing pc) (offering pc) r)
            peers
            (with_blob P own target peers pc r)
    unfolding advance stage_step with_blob
    offering-with_blob peers (w, some e) = closing-ends (calling target) w peers pc e
    offering-with_blob peers (w, none) = next (describing-created peers (P.create_offer w pc))

    adding_blob-with_control :
        (peers : Peers) (r : World × Option Error)
        → Calls
            (unless_failed P (closing pc) (adding_blob pc) r)
            peers
            (with_control P own target peers pc r)
    unfolding advance stage_step with_control
    adding_blob-with_control peers (w, some e) = closing-ends (calling target) w peers pc e
    adding_blob-with_control peers (w, none) =
        next (offering-with_blob peers (P.create_data_channel w pc label_blob))

    checking-ready :
        (peers : Peers) (r : World × Bool)
        → Calls
            (once_ready P pc
              (codes "peer " ++ hex_encode target.id ++ codes ": control channel not ready")
              r)
            peers
            (ready P own target peers pc r)
    unfolding ready
    checking-ready peers (w, true) = ends
    checking-ready peers (w, false) = ends

  module _ (target : NetworkNode) (peers : Peers) where
    opened-made :
        (r : World × Result ℕ)
        → Runs
            (calling target)
            (as_call (made P own target peers r))
            (opened P (calling target) r).0
            peers
            (opened P (calling target) r).1
    unfolding advance stage_step made
    opened-made (w, err e) = ends
    opened-made (w, ok pc) =
        next (adding_blob-with_control target pc peers (P.create_data_channel w pc label_control))

    entry_stage-peer_at :
        (w : World) (found : Option ℕ)
        → Runs
            (calling target)
            (as_call (peer_at P own target w peers found))
            w
            peers
            (entry_stage found)
    unfolding advance stage_step peer_at connect
    entry_stage-peer_at w none = next (opened-made (P.new_pc w))
    entry_stage-peer_at w (some pc) = next (checking-ready target pc peers (P.wait_control w pc))

    looking-get_peer :
        (w : World)
        → Runs (calling target) (as_call (get_peer P own target w peers)) w peers looking
    unfolding advance stage_step get_peer
    looking-get_peer w = next (entry_stage-peer_at w (Assoc.lookup key_eq target.id peers))

  module _ (payload : SignalPayload) (peers : Peers) where
    module _ (pc : ℕ) where
      abbrev Replies : World × Stage → World × Peers × Result Text → Type 0
      Replies now end = Runs (serving payload) (as_reply end) now.0 peers now.1

      placing-answer_set :
          (r : World × Option Error)
          → Replies (unless_failed P (closing pc) (placing pc) r) (answer_set P payload peers pc r)
      unfolding advance stage_step answer_set
      placing-answer_set (w, some e) = closing-ends (serving payload) w peers pc e
      placing-answer_set (w, none) = next ends

      describing-answer_made :
          (r : World × Result Text)
          → Replies (with_text P (closing pc) (describing pc) r) (answer_made P payload peers pc r)
      unfolding advance stage_step answer_made
      describing-answer_made (w, err e) = closing-ends (serving payload) w peers pc e
      describing-answer_made (w, ok sdp) = next (placing-answer_set (P.set_local w pc sdp))

      replying-offer_set :
          (r : World × Option Error)
          → Replies (unless_failed P (closing pc) (replying pc) r) (offer_set P payload peers pc r)
      unfolding advance stage_step offer_set
      replying-offer_set (w, some e) = closing-ends (serving payload) w peers pc e
      replying-offer_set (w, none) = next (describing-answer_made (P.create_answer w pc))

    opened-callee_made :
        (r : World × Result ℕ)
        → Runs
            (serving payload)
            (as_reply (callee_made P payload peers r))
            (opened P (serving payload) r).0
            peers
            (opened P (serving payload) r).1
    unfolding advance stage_step callee_made
    opened-callee_made (w, err e) = ends
    opened-callee_made (w, ok pc) =
        next (replying-offer_set pc (P.set_remote_offer w pc payload.sdp))

    opening-handle_incoming_offer :
        (w : World)
        → Runs
            (serving payload)
            (as_reply (handle_incoming_offer P payload w peers))
            w
            peers
            opening
    unfolding advance stage_step handle_incoming_offer
    opening-handle_incoming_offer w = next (opened-callee_made (P.new_pc w))

  -- The steps of a task with no other in between lead to where the whole operation leads: for a
  -- call of getPeer, with connect in it, and for an offer that comes, on every path of errors.
  pub Runs-get_peer :
      (target : NetworkNode) (payload : SignalPayload) (w : World) (peers : Peers)
      → Runs (calling target) (as_call (get_peer P own target w peers)) w peers looking
        × Runs
            (serving payload)
            (as_reply (handle_incoming_offer P payload w peers))
            w
            peers
            opening
  Runs-get_peer target payload w peers =
      (looking-get_peer target peers w, opening-handle_incoming_offer payload peers w)
