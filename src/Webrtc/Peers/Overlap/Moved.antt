-- ===== src/Webrtc/Peers/Overlap/Moved.antt =====
-- transport/webrtc/webrtc.go: every step of a task keeps what is known of open connections.
use webrtc_dht.Prelude.{
  ℕ, ◌≡◌, refl, sym, ap, ◌∙◌, ◌≢◌, ◌⊎◌, inl, inr, true, Option, none, some, eq_of_some,
}
use webrtc_dht.Prelude.Assoc
use webrtc_dht.Key.{NodeId, key_eq}
use webrtc_dht.Types.{Error, Result, ok, err, ok-injective}
use webrtc_dht.Webrtc.Peers.{Pion, Peers, label_control, label_blob}
use webrtc_dht.Webrtc.Peers.Leaks.{IsPion}
use webrtc_dht.Webrtc.Peers.Overlap.{
  Errand, calling, serving, peer_of, Stage, looking, opening, adding_control, adding_blob, offering,
  accepting, replying, describing, placing, signaling, answering, removing, closing, awaiting,
  checking, failed, connected, replied, entry_stage, opened, opened_for, placed_stage, stage_step,
  peers_step,
}
use webrtc_dht.Webrtc.Peers.Overlap.Kept.{
  entry_of, held, IsFit, IsMoved, quiet, unless_failed-IsMoved, with_text-IsMoved, made-IsMoved,
  described-IsMoved, once_ready-IsMoved,
}

opened_for-held : (errand : Errand) (pc : ℕ) → held (opened_for errand pc) ≡ some pc
opened_for-held (calling target) pc = refl
opened_for-held (serving payload) pc = refl

opened_for-entry : (errand : Errand) (pc : ℕ) → entry_of (opened_for errand pc) ≡ some none
opened_for-entry (calling target) pc = refl
opened_for-entry (serving payload) pc = refl

placed_stage-entry :
    (P : Pion) (errand : Errand) (pc : ℕ) (w : P.World) (m : Option ℕ)
    → entry_of (placed_stage P errand pc w) ≡ some m
    → m ≡ some pc
placed_stage-entry P (calling target) pc w m e = sym (eq_of_some e)
placed_stage-entry P (serving payload) pc w m e = absurd (cc)

some-ne-none {ℓ} : {A : Type ℓ} {a : A} → some a ≢ none
some-ne-none e = cc

module _ (P : Pion) (laws : IsPion P) (errand : Errand) (w : P.World) (peers : Peers) where
  open laws use {is_open, new_pc-open, close_pc-open}

  abbrev peer : NodeId
  peer = peer_of errand

  looking-IsMoved :
      (found : Option ℕ)
      → Assoc.lookup key_eq peer peers ≡ found
      → IsMoved P laws peer w peers looking w peers (entry_stage found)
  looking-IsMoved none e = record {
    others = λ id ne. refl;
    fits = λ m f. e ∙ eq_of_some f;
    fresh = λ d o. inr o;
    kept = λ d o has. elim has [ inl h ↦ absurd (cc) | inr there ↦ inr there ];
    busy = λ b. inr (refl, e);
  }
  looking-IsMoved (some pc) e =
      quiet P laws peer w peers looking w (checking pc) (λ d o. o) refl (inl refl)
        (λ m f. absurd (cc))

  opened-IsMoved :
      (r : P.World × Result ℕ)
      → ((d : ℕ) → is_open r.0 d ≡ true → (r.1 ≡ ok d) ⊎ (is_open w d ≡ true))
      → Assoc.lookup key_eq peer peers ≡ none
      → IsMoved P laws peer w peers opening (opened P errand r).0 peers (opened P errand r).1
  opened-IsMoved (w', err e) law absent =
      quiet P laws peer w peers opening w' (failed e)
        (λ d o. elim (law d o) [ inl f ↦ absurd (cc) | inr before ↦ before ]) refl (inl refl)
        (λ m f. absent ∙ eq_of_some f)
  opened-IsMoved (w', ok pc) law absent = record {
    others = λ id ne. refl;
    fits = λ m f. absent ∙ eq_of_some (sym (opened_for-entry errand pc) ∙ f);
    fresh = λ d o. elim (law d o) [
      | inl e ↦ inl (inl (opened_for-held errand pc ∙ ap some (ok-injective e)))
      | inr before ↦ inr before
    ];
    kept = λ d o has. elim has [ inl h ↦ absurd (cc) | inr there ↦ inr there ];
    busy = λ b. inl some-ne-none;
  }

  placing-IsMoved :
      (pc : ℕ)
      → Assoc.lookup key_eq peer peers ≡ none
      → IsMoved P laws peer w peers
          (placing pc)
          w
          (Assoc.assign key_eq peer pc peers)
          (placed_stage P errand pc w)
  placing-IsMoved pc absent =
      let there = Assoc.lookup-assign_self key_eq peer pc peers in
      record {
        others = λ id ne. Assoc.lookup-assign_ne key_eq peer id pc peers (ne some-ne-none);
        fits = λ m e. there ∙ sym (placed_stage-entry P errand pc w m e);
        fresh = λ d o. inr o;
        kept = λ d o has. elim has [
          | inl h ↦ inr (there ∙ h)
          | inr e ↦ absurd (some-ne-none (sym e ∙ absent))
        ];
        busy = λ b. inl some-ne-none;
      }

  removing-IsMoved :
      (pc : ℕ) (e : Error)
      → Assoc.lookup key_eq peer peers ≡ some pc
      → IsMoved P laws peer w peers
          (removing pc e)
          w
          (Assoc.remove key_eq peer peers)
          (closing pc e)
  removing-IsMoved pc e there = record {
    others = λ id ne. Assoc.lookup-remove_ne key_eq peer id peers (ne some-ne-none);
    fits = λ m f. absurd (cc);
    fresh = λ d o. inr o;
    kept = λ d o has. elim has [ inl h ↦ absurd (cc) | inr h ↦ inl (sym there ∙ h) ];
    busy = λ b. absurd (b refl);
  }

  closing-IsMoved :
      (pc : ℕ) (e : Error)
      → IsMoved P laws peer w peers (closing pc e) (P.close_pc w pc).0 peers (failed e)
  closing-IsMoved pc e = record {
    others = λ id ne. refl;
    fits = λ m f. absurd (cc);
    fresh = λ d o. inr (close_pc-open w pc d o).1;
    kept = λ d o has. elim has [
      | inl h ↦ absurd ((close_pc-open w pc d o).0 (eq_of_some h))
      | inr there ↦ inr there
    ];
    busy = λ b. absurd (b refl);
  }

  -- A step of a task keeps all of this, if the map was as the task expects.
  pub stage_step-IsMoved :
      (own : NodeId) (stage : Stage)
      → IsFit peer peers stage
      → IsMoved P laws peer w peers stage
          (stage_step P own errand w peers stage).0
          (peers_step peer peers stage)
          (stage_step P own errand w peers stage).1
  unfolding stage_step
  stage_step-IsMoved own looking fit = looking-IsMoved (Assoc.lookup key_eq peer peers) refl
  stage_step-IsMoved own opening fit = opened-IsMoved (P.new_pc w) (new_pc-open w) (fit none refl)
  stage_step-IsMoved own (adding_control pc) fit =
      made-IsMoved P laws peer w peers (adding_control pc) pc refl fit (adding_blob pc) _
        (laws.create_data_channel-open w pc label_control) refl refl
  stage_step-IsMoved own (adding_blob pc) fit =
      made-IsMoved P laws peer w peers (adding_blob pc) pc refl fit (offering pc) _
        (laws.create_data_channel-open w pc label_blob) refl refl
  stage_step-IsMoved own (offering pc) fit =
      described-IsMoved P laws peer w peers (offering pc) pc refl fit _
        (laws.create_offer-open w pc) refl
  stage_step-IsMoved own (accepting pc sdp) fit =
      made-IsMoved P laws peer w peers (accepting pc sdp) pc refl fit (replying pc) _
        (laws.set_remote_offer-open w pc sdp) refl refl
  stage_step-IsMoved own (replying pc) fit =
      described-IsMoved P laws peer w peers (replying pc) pc refl fit _
        (laws.create_answer-open w pc) refl
  stage_step-IsMoved own (describing pc sdp) fit =
      made-IsMoved P laws peer w peers (describing pc sdp) pc refl fit (placing pc) _
        (laws.set_local-open w pc sdp) refl refl
  stage_step-IsMoved own (placing pc) fit = placing-IsMoved pc (fit none refl)
  stage_step-IsMoved own (signaling target pc) fit =
      with_text-IsMoved P laws peer w peers (signaling target pc) _ (answering pc) _
        (laws.send_offer-open w target _) (λ e. refl) (λ t. refl) (λ e. inr refl) (λ t. inr refl)
        fit
  stage_step-IsMoved own (answering pc sdp) fit =
      unless_failed-IsMoved P laws peer w peers (answering pc sdp) (removing pc) (awaiting pc) _
        (laws.set_remote_answer-open w pc sdp) (λ e. refl) refl (λ e. inr refl) (inl refl) fit
  stage_step-IsMoved own (removing pc e) fit = removing-IsMoved pc e (fit (some pc) refl)
  stage_step-IsMoved own (closing pc e) fit = closing-IsMoved pc e
  stage_step-IsMoved own (awaiting pc) fit =
      once_ready-IsMoved P laws peer w peers (awaiting pc) pc _ _ (laws.wait_control-open w pc) refl
        fit
  stage_step-IsMoved own (checking pc) fit =
      once_ready-IsMoved P laws peer w peers (checking pc) pc _ _ (laws.wait_control-open w pc) refl
        fit
  stage_step-IsMoved own (failed e) fit =
      quiet P laws peer w peers (failed e) w (failed e) (λ d o. o) refl (inr refl) fit
  stage_step-IsMoved own (connected pc) fit =
      quiet P laws peer w peers (connected pc) w (connected pc) (λ d o. o) refl (inr refl) fit
  stage_step-IsMoved own (replied sdp) fit =
      quiet P laws peer w peers (replied sdp) w (replied sdp) (λ d o. o) refl (inr refl) fit
