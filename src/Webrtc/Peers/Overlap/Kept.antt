-- ===== src/Webrtc/Peers/Overlap/Kept.antt =====
-- transport/webrtc/webrtc.go: what one step of a task leaves open.
use webrtc_dht.Prelude.{
  ℕ, ◌≡◌, refl, sym, ◌∙◌, ◌≢◌, ◌⊎◌, inl, inr, Bool, true, false, Option, none, some, Text,
}
use webrtc_dht.Prelude.Assoc
use webrtc_dht.Key.{NodeId, key_eq}
use webrtc_dht.Types.{Error, Result, ok, err}
use webrtc_dht.Webrtc.Peers.{Pion, Peers}
use webrtc_dht.Webrtc.Peers.Leaks.{IsPion}
use webrtc_dht.Webrtc.Peers.Overlap.{
  Stage, looking, opening, adding_control, adding_blob, offering, accepting, replying, describing,
  placing, signaling, answering, removing, closing, awaiting, checking, failed, connected, replied,
  unless_failed, with_text, once_ready,
}

-- What the map has under the peer of a task that connects: nothing until the connection is put
-- there, and then the connection. A task that does not connect expects nothing of the map.
abbrev pub entry_of : Stage → Option (Option ℕ)
entry_of opening = some none
entry_of (adding_control pc) = some none
entry_of (adding_blob pc) = some none
entry_of (offering pc) = some none
entry_of (accepting pc sdp) = some none
entry_of (replying pc) = some none
entry_of (describing pc sdp) = some none
entry_of (placing pc) = some none
entry_of (signaling target pc) = some (some pc)
entry_of (answering pc sdp) = some (some pc)
entry_of (removing pc e) = some (some pc)
entry_of looking = none
entry_of (closing pc e) = none
entry_of (awaiting pc) = none
entry_of (checking pc) = none
entry_of (failed e) = none
entry_of (connected pc) = none
entry_of (replied sdp) = none

-- The connection that a task has and the map has not.
abbrev pub held : Stage → Option ℕ
held (adding_control pc) = some pc
held (adding_blob pc) = some pc
held (offering pc) = some pc
held (accepting pc sdp) = some pc
held (replying pc) = some pc
held (describing pc sdp) = some pc
held (placing pc) = some pc
held (closing pc e) = some pc
held looking = none
held opening = none
held (signaling target pc) = none
held (answering pc sdp) = none
held (removing pc e) = none
held (awaiting pc) = none
held (checking pc) = none
held (failed e) = none
held (connected pc) = none
held (replied sdp) = none

-- The map is as the task expects.
abbrev pub IsFit : NodeId → Peers → Stage → Type 0
IsFit peer peers stage =
    (m : Option ℕ) → entry_of stage ≡ some m → Assoc.lookup key_eq peer peers ≡ m

-- The task has the connection, or its peer has it in the map.
abbrev pub Has : NodeId → Peers → Stage → ℕ → Type 0
Has peer peers stage d = (held stage ≡ some d) ⊎ (Assoc.lookup key_eq peer peers ≡ some d)

module _ (P : Pion) (laws : IsPion P) where
  open P use {World}
  open laws use {is_open}

  -- What a step keeps: other entries of the map, and its own too if the task does not connect, what the task expects of it, and that a
  -- connection that is open is known to the task or was open before.
  pub record IsMoved (peer : NodeId) (w : World) (peers : Peers) (stage : Stage) (w' : World)
      (peers' : Peers) (stage' : Stage) : Type 0 where
    pub others :
        (id : NodeId)
        → (entry_of stage ≢ none → peer ≢ id)
        → Assoc.lookup key_eq id peers' ≡ Assoc.lookup key_eq id peers
    pub fits : IsFit peer peers' stage'
    pub fresh : (d : ℕ) → is_open w' d ≡ true → Has peer peers' stage' d ⊎ (is_open w d ≡ true)
    pub kept : (d : ℕ) → is_open w' d ≡ true → Has peer peers stage d → Has peer peers' stage' d
    pub busy :
        entry_of stage' ≢ none
        → (entry_of stage ≢ none) ⊎ ((stage ≡ looking) × (Assoc.lookup key_eq peer peers ≡ none))

  module _ (peer : NodeId) (w : World) (peers : Peers) (stage : Stage) where
    -- Most steps open nothing, and leave the map and what the task has.
    pub quiet :
        (w' : World) (stage' : Stage)
        → ((d : ℕ) → is_open w' d ≡ true → is_open w d ≡ true)
        → held stage' ≡ held stage
        → (entry_of stage' ≡ none) ⊎ (entry_of stage' ≡ entry_of stage)
        → IsFit peer peers stage
        → IsMoved peer w peers stage w' peers stage'
    quiet w' stage' fewer same entry fit = record {
      others = λ id ne. refl;
      fits = λ m e. elim entry [ inl gone ↦ absurd (cc) | inr still ↦ fit m (sym still ∙ e) ];
      fresh = λ d o. inr (fewer d o);
      kept = λ d o has. elim has [ inl h ↦ inl (same ∙ h) | inr there ↦ inr there ];
      busy = λ b. elim entry [ inl gone ↦ absurd (b gone) | inr still ↦ inl (λ e. b (still ∙ e)) ];
    }

    pub unless_failed-IsMoved :
        (on_error : Error → Stage) (next : Stage) (r : World × Option Error)
        → ((d : ℕ) → is_open r.0 d ≡ true → is_open w d ≡ true)
        → ((e : Error) → held (on_error e) ≡ held stage)
        → held next ≡ held stage
        → ((e : Error) → (entry_of (on_error e) ≡ none) ⊎ (entry_of (on_error e) ≡ entry_of stage))
        → (entry_of next ≡ none) ⊎ (entry_of next ≡ entry_of stage)
        → IsFit peer peers stage
        → IsMoved peer w peers stage
            (unless_failed P on_error next r).0
            peers
            (unless_failed P on_error next r).1
    unless_failed-IsMoved on_error next (w', some e) fewer h₁ h₂ e₁ e₂ fit =
        quiet w' (on_error e) fewer (h₁ e) (e₁ e) fit
    unless_failed-IsMoved on_error next (w', none) fewer h₁ h₂ e₁ e₂ fit =
        quiet w' next fewer h₂ e₂ fit

    pub with_text-IsMoved :
        (on_error : Error → Stage) (next : Text → Stage) (r : World × Result Text)
        → ((d : ℕ) → is_open r.0 d ≡ true → is_open w d ≡ true)
        → ((e : Error) → held (on_error e) ≡ held stage)
        → ((t : Text) → held (next t) ≡ held stage)
        → ((e : Error) → (entry_of (on_error e) ≡ none) ⊎ (entry_of (on_error e) ≡ entry_of stage))
        → ((t : Text) → (entry_of (next t) ≡ none) ⊎ (entry_of (next t) ≡ entry_of stage))
        → IsFit peer peers stage
        → IsMoved peer w peers stage
            (with_text P on_error next r).0
            peers
            (with_text P on_error next r).1
    with_text-IsMoved on_error next (w', err e) fewer h₁ h₂ e₁ e₂ fit =
        quiet w' (on_error e) fewer (h₁ e) (e₁ e) fit
    with_text-IsMoved on_error next (w', ok t) fewer h₁ h₂ e₁ e₂ fit =
        quiet w' (next t) fewer (h₂ t) (e₂ t) fit

    module _ (pc : ℕ) (has : held stage ≡ some pc) (fit : IsFit peer peers stage) where
      -- A step after which the task still has the connection, or closes it next.
      pub made-IsMoved :
          (next : Stage) (r : World × Option Error)
          → ((d : ℕ) → is_open r.0 d ≡ true → is_open w d ≡ true)
          → held next ≡ some pc
          → entry_of next ≡ entry_of stage
          → IsMoved peer w peers stage
              (unless_failed P (closing pc) next r).0
              peers
              (unless_failed P (closing pc) next r).1
      made-IsMoved next r fewer still entry =
          unless_failed-IsMoved (closing pc) next r fewer (λ e. sym has) (still ∙ sym has)
            (λ e. inl refl) (inr entry) fit

      pub described-IsMoved :
          (r : World × Result Text)
          → ((d : ℕ) → is_open r.0 d ≡ true → is_open w d ≡ true)
          → some none ≡ entry_of stage
          → IsMoved peer w peers stage
              (with_text P (closing pc) (describing pc) r).0
              peers
              (with_text P (closing pc) (describing pc) r).1
      described-IsMoved r fewer entry =
          with_text-IsMoved (closing pc) (describing pc) r fewer (λ e. sym has) (λ t. sym has)
            (λ e. inl refl) (λ t. inr entry) fit

    pub once_ready-IsMoved :
        (pc : ℕ) (text : Text) (r : World × Bool)
        → ((d : ℕ) → is_open r.0 d ≡ true → is_open w d ≡ true)
        → held stage ≡ none
        → IsFit peer peers stage
        → IsMoved peer w peers stage (once_ready P pc text r).0 peers (once_ready P pc text r).1
    once_ready-IsMoved pc text (w', true) fewer h fit =
        quiet w' (connected pc) fewer (sym h) (inl refl) fit
    once_ready-IsMoved pc text (w', false) fewer h fit = quiet w' _ fewer (sym h) (inl refl) fit
