-- ===== src/Webrtc/Peers/Overlap/Well.antt =====
-- transport/webrtc/webrtc.go: tasks that run at once, as long as no two connect to the same peer: every
-- connection that is open is in the map, or one of the tasks has it.
use webrtc_dht.Prelude.{
  ℕ, zero, suc, arith, ◌≡◌, refl, sym, ap, ◌∙◌, ◌≢◌, ◌⊎◌, inl, inr, true, none, some, ℕ_discrete,
}
use webrtc_dht.Prelude.Assoc
use webrtc_dht.Key.{NodeId, key_eq}
use webrtc_dht.Webrtc.Peers.{Pion, Peers}
use webrtc_dht.Webrtc.Peers.Leaks.{IsPion}
use webrtc_dht.Webrtc.Peers.Overlap.{peer_of, Stage, looking, Task, with_task}
use webrtc_dht.Webrtc.Peers.Overlap.Kept.{entry_of, held, IsFit, Has, IsMoved}

with_task-elim {ℓ} :
    (Q : Task → Type ℓ) (i : ℕ) (task : Task) (tasks : ℕ → Task) (j : ℕ)
    → (i ≡ j → Q task)
    → (i ≢ j → Q (tasks j))
    → Q (with_task i task tasks j)
unfolding with_task
with_task-elim Q zero task tasks zero here there = here refl
with_task-elim Q zero task tasks (suc j) here there = there (λ e. omega (arith, e))
with_task-elim Q (suc i) task tasks zero here there = there (λ e. omega (arith, e))
with_task-elim Q (suc i) task tasks (suc j) here there =
    with_task-elim Q i task (λ k. tasks (suc k)) j (λ e. here (ap suc e))
      (λ ne. there (λ e. ne (omega (arith, e))))

-- A task that has no connection in the making: it has not begun to connect, or has ended that.
abbrev pub IsIdle : Stage → Type 0
IsIdle stage = (entry_of stage ≡ none) × (held stage ≡ none)

abbrev pub IsConnecting : Task → Type 0
IsConnecting task = entry_of task.stage ≢ none

-- No other task connects to the peer.
abbrev pub IsAlone : NodeId → ℕ → (ℕ → Task) → Type 0
IsAlone peer i tasks = (j : ℕ) → i ≢ j → IsConnecting (tasks j) → peer ≢ peer_of (tasks j).errand

-- No two tasks connect to the same peer.
abbrev pub IsApart : (ℕ → Task) → Type 0
IsApart tasks = (i : ℕ) → IsConnecting (tasks i) → IsAlone (peer_of (tasks i).errand) i tasks

with_task-IsApart :
    (i : ℕ) (task : Task) (tasks : ℕ → Task)
    → IsApart tasks
    → (IsConnecting task → IsAlone (peer_of task.errand) i tasks)
    → IsApart (with_task i task tasks)
with_task-IsApart i task tasks apart alone a =
    with_task-elim (λ t. IsConnecting t → IsAlone (peer_of t.errand) a (with_task i task tasks)) i
      task tasks a
      (λ e busy b ne.
        with_task-elim (λ t. IsConnecting t → peer_of task.errand ≢ peer_of t.errand) i task tasks b
          (λ f. absurd (ne (sym e ∙ f))) (alone busy b))
      (λ other busy b ne.
        with_task-elim (λ t. IsConnecting t → peer_of (tasks a).errand ≢ peer_of t.errand) i task
          tasks b (λ f again same. alone again a other busy (sym same)) (λ f. apart a busy b ne))

module _ (P : Pion) (laws : IsPion P) where
  open P use {World}
  open laws use {is_open}

  pub record IsWell (w : World) (peers : Peers) (tasks : ℕ → Task) : Type 0 where
    pub known :
        (d : ℕ)
        → is_open w d ≡ true
        → ((i : ℕ) × (held (tasks i).stage ≡ some d))
          ⊎ ((id : NodeId) × (Assoc.lookup key_eq id peers ≡ some d))
    pub fit : (i : ℕ) → IsFit (peer_of (tasks i).errand) peers (tasks i).stage
    pub apart : IsApart tasks

  module _ {w : World} {peers : Peers} {tasks : ℕ → Task} (well : IsWell w peers tasks)
      (i : ℕ) where
    -- An idle task begins with another errand.
    pub begun-IsWell :
        (task : Task)
        → IsIdle (tasks i).stage
        → IsFit (peer_of task.errand) peers task.stage
        → (IsConnecting task → IsAlone (peer_of task.errand) i tasks)
        → IsWell w peers (with_task i task tasks)
    begun-IsWell task idle fit alone = record {
      known = λ d o. elim (well.known d o) [
        | inl (j, h) ↦ inl (
          j,
          with_task-elim (λ t. held t.stage ≡ some d) i task tasks j
              (λ e. absurd (cc (ap (λ k. held (tasks k).stage) e, idle.1, h))) (λ ne. h),
        )
        | inr there ↦ inr there
      ];
      fit = λ j.
          with_task-elim (λ t. IsFit (peer_of t.errand) peers t.stage) i task tasks j (λ e. fit)
            (λ ne. well.fit j);
      apart = with_task-IsApart i task tasks well.apart alone;
    }

    module _ (w' : World) (peers' : Peers) (next : Stage)
        (m : IsMoved P laws (peer_of (tasks i).errand) w peers (tasks i).stage w' peers' next) where
      abbrev peer : NodeId
      peer = peer_of (tasks i).errand

      abbrev after : ℕ → Task
      after = with_task i (record { errand = (tasks i).errand; stage = next }) tasks

      -- What the task has is known.
      has-known :
          (d : ℕ)
          → Has peer peers' next d
          → ((j : ℕ) × (held (after j).stage ≡ some d))
            ⊎ ((id : NodeId) × (Assoc.lookup key_eq id peers' ≡ some d))
      has-known d (inl h) = inl (
        i,
        with_task-elim (λ t. held t.stage ≡ some d) i _ tasks i (λ e. h) (λ ne. absurd (ne refl)),
      )
      has-known d (inr there) = inr (peer, there)

      moved-known :
          (d : ℕ)
          → is_open w' d ≡ true
          → ((j : ℕ) × (held (tasks j).stage ≡ some d))
            ⊎ ((id : NodeId) × (Assoc.lookup key_eq id peers ≡ some d))
          → ((j : ℕ) × (held (after j).stage ≡ some d))
            ⊎ ((id : NodeId) × (Assoc.lookup key_eq id peers' ≡ some d))
      moved-known d o (inl (j, h)) = elim (ℕ_discrete i j) [
        | yes e ↦ has-known d (m.kept d o (inl (ap (λ k. held (tasks k).stage) e ∙ h)))
        | no ne ↦ inl (
          j,
          with_task-elim (λ t. held t.stage ≡ some d) i _ tasks j (λ e. absurd (ne e)) (λ f. h),
        )
      ]
      moved-known d o (inr (id, there)) = elim (key_eq peer id) [
        | yes e ↦ has-known d (m.kept d o (inr (ap (λ k. Assoc.lookup key_eq k peers) e ∙ there)))
        | no ne ↦ inr (id, m.others id (λ busy. ne) ∙ there)
      ]

      -- A task goes one step on.
      pub moved-IsWell :
          ((tasks i).stage ≡ looking → Assoc.lookup key_eq peer peers ≡ none → IsAlone peer i tasks)
          → IsWell w' peers' after
      moved-IsWell alone = record {
        known = λ d o. elim (m.fresh d o) [
          | inl has ↦ has-known d has
          | inr before ↦ moved-known d o (well.known d before)
        ];
        fit = λ j.
            with_task-elim (λ t. IsFit (peer_of t.errand) peers' t.stage) i _ tasks j (λ e. m.fits)
              (λ ne n e.
                m.others (peer_of (tasks j).errand) (λ busy. well.apart i busy j ne (cc))
                ∙ well.fit j n e);
        apart = with_task-IsApart i _ tasks well.apart (λ busy. elim (m.busy busy) [
          | inl before ↦ well.apart i before
          | inr (at_start, absent) ↦ alone at_start absent
        ]);
      }
