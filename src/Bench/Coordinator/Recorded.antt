-- ===== src/Bench/Coordinator/Recorded.antt =====
-- cmd/bench_signaling/main.go: when the coordinator has all results.
use webrtc_dht.Prelude.{
  ℕ, zero, suc, ◌+◌, ◌/◌, ◌%◌, ◌<◌, ◌≡◌, refl, ap, ◌∙◌, sym, ◌≢◌, Bool, true, false, Option, none,
  some, List, [], ◌∷◌, ◌++◌, arith, leb, length, Text, Occurs,
}
use mathlib.Core.List.{append_assoc, append-nil}
use native.Mathlib.Nat.{mod-lt}
use webrtc_dht.Types.{Error}
use webrtc_dht.Bench.Pairs.{RunPairRequest, PairResult}
use webrtc_dht.Bench.Coordinator.{
  tried, dispatch_from, dispatch_pair, caller_agent, caller_request, unreachable, caller_result,
  call_caller, call_callers, Collected, record_result, record_all,
}
use webrtc_dht.Bench.Coordinator.Rotation.{dispatch_accepted}

abbrev pub nothing_yet : {A : Type 0} → Collected A
nothing_yet = record { results = []; done = false }

length-snoc : {A : Type 0} (rs : List A) (r : A) → length (rs ++ r ∷ []) ≡ suc (length rs)
length-snoc [] r = refl
length-snoc (x ∷ rs) r = ap suc (length-snoc rs r)

record_all-results :
    {A : Type 0} (pairs : ℕ) (c : Collected A) (rs : List A)
    → (record_all pairs c rs).results ≡ c.results ++ rs
unfolding record_all record_result
record_all-results pairs c [] = sym (append-nil c.results)
record_all-results pairs c (r ∷ rs) =
    record_all-results pairs (record_result pairs c r) rs ∙ append_assoc c.results (r ∷ []) rs

record_all-done :
    {A : Type 0} (pairs : ℕ) (c : Collected A) (rs : List A)
    → c.done ≡ leb pairs (length c.results)
    → (record_all pairs c rs).done ≡ leb pairs (length (record_all pairs c rs).results)
unfolding record_all record_result
record_all-done pairs c [] h = h
record_all-done pairs c (r ∷ rs) h =
    let size = length-snoc c.results r in
    record_all-done pairs (record_result pairs c r) rs (ground (arith, h, size))

-- However many results come, of which at least one is wanted, all are kept in their order, and the
-- signal is given exactly if as many have come as are wanted.
pub record_all-nothing_yet :
    {A : Type 0} (pairs : ℕ) (rs : List A)
    → 0 < pairs
    → record_all pairs nothing_yet rs ≡ record { results = rs; done = leb pairs (length rs) }
record_all-nothing_yet pairs rs some_pair =
    let at_first : false ≡ leb pairs 0 = ground arith in
    let kept = record_all-results pairs nothing_yet rs in
    let signal =
      record_all-done pairs nothing_yet rs at_first ∙ ap (λ l. leb pairs (length l)) kept in
    λ t. record { results = kept t; done = signal t }

module _ {W : Type 0} (post : W → Text → W × Option Error)
    (refuses : (w : W) (agent : Text) → (post w agent).1 ≢ none) where
  tried-false :
      (again : W → W × Bool) (r : W × Option Error)
      → r.1 ≢ none
      → ((w : W) → (again w).1 ≡ false)
      → (tried post again r).1 ≡ false
  unfolding tried
  tried-false again (w, none) h rest = absurd (h refl)
  tried-false again (w, some e) h rest = rest w

  dispatch_from-false :
      (agents : List Text) (start attempt left : ℕ) (w : W)
      → (dispatch_from post agents start attempt left w).1 ≡ false
  unfolding dispatch_from
  dispatch_from-false agents start attempt zero w = refl
  dispatch_from-false agents start attempt (suc left) w =
      tried-false (dispatch_from post agents start (suc attempt) left) _ (refuses w _)
        (dispatch_from-false agents start (suc attempt) left)

module _ {W : Type 0} (post : W → Text → RunPairRequest → W × Option Error) (agents : List Text)
    (callee_ids caller_ids : ℕ → Text) (signaling callback : Text) where
  -- An error for each of so many pairs, from one on.
  abbrev pub errors_from : ℕ → ℕ → List PairResult
  errors_from i zero = []
  errors_from i (suc left) = unreachable signaling i ∷ errors_from (suc i) left

  length-errors_from : (left i : ℕ) → length (errors_from i left) ≡ left
  length-errors_from zero i = refl
  length-errors_from (suc left) i = ap suc (length-errors_from left (suc i))

  caller_result-false :
      (i : ℕ) (r : W × Bool)
      → r.1 ≡ false
      → (caller_result post agents callee_ids caller_ids signaling i r).1
        ≡ unreachable signaling i ∷ []
  unfolding caller_result
  caller_result-false i (w, true) e = absurd (cc)
  caller_result-false i (w, false) e = refl

  caller_result-true :
      (i : ℕ) (r : W × Bool)
      → r.1 ≡ true
      → (caller_result post agents callee_ids caller_ids signaling i r).1 ≡ []
  unfolding caller_result
  caller_result-true i (w, true) e = refl
  caller_result-true i (w, false) e = absurd (cc)

  abbrev asked : ℕ → W → Text → W × Option Error
  asked i w agent = post w agent (caller_request callback i (callee_ids i) (caller_ids i))

  abbrev caller_errors : ℕ → W → List PairResult
  caller_errors i w = (call_caller post agents callee_ids caller_ids signaling callback i w).1

  abbrev after_caller : ℕ → W → W
  after_caller i w = (call_caller post agents callee_ids caller_ids signaling callback i w).0

  abbrev pub callers_errors : ℕ → ℕ → W → List PairResult
  callers_errors i left w =
      (call_callers post agents callee_ids caller_ids signaling callback i left w).1

  module _
      (refuses : (w : W) (agent : Text) (req : RunPairRequest) → (post w agent req).1 ≢ none) where
    call_caller-refused : (i : ℕ) (w : W) → caller_errors i w ≡ unreachable signaling i ∷ []
    unfolding call_caller dispatch_pair
    call_caller-refused i w = caller_result-false i _ (
        dispatch_from-false (asked i) (λ u agent. refuses u agent _) agents
          (caller_agent (length agents) i) 0 (length agents) w)

    callers_errors-refused : (left i : ℕ) (w : W) → callers_errors i left w ≡ errors_from i left
    unfolding call_callers
    callers_errors-refused zero i w = refl
    callers_errors-refused (suc left) i w =
        λ t. call_caller-refused i w t ++ callers_errors-refused left (suc i) (after_caller i w) t

    -- If every agent refuses, the coordinator itself records an error for each pair, in their
    -- order, and with the last of them, where there is a pair at all, the signal is given that all
    -- results are there.
    pub call_callers-refused :
        (pairs : ℕ) (w : W)
        → 0 < pairs
        → record_all pairs nothing_yet (callers_errors 0 pairs w)
          ≡ record { results = errors_from 0 pairs; done = true }
    call_callers-refused pairs w some_pair =
        let size = length-errors_from pairs 0 in
        let enough : leb pairs (length (errors_from 0 pairs)) ≡ true = ground (arith, size) in
        ap (record_all pairs nothing_yet) (callers_errors-refused pairs 0 w)
        ∙ record_all-nothing_yet pairs (errors_from 0 pairs) some_pair
        ∙ ap (λ b. record { results = errors_from 0 pairs; done = b }) enough

  module _ (agent : Text) (there : Occurs agent agents)
      (accepts : (w : W) (req : RunPairRequest) → (post w agent req).1 ≡ none) where
    call_caller-accepted : (i : ℕ) (w : W) → caller_errors i w ≡ []
    unfolding call_caller caller_agent
    call_caller-accepted i w =
        let start = (i + (length agents + 1) / 2) % length agents in
        caller_result-true i _ (
          dispatch_accepted (asked i) agents start (mod-lt _ (some_agent agents there)) agent there
            (λ u. accepts u _) w)
      where
        some_agent : (l : List Text) → Occurs agent l → 0 < length l
        some_agent [] p = absurd p
        some_agent (x ∷ l) p = omega arith

    -- If one agent accepts whenever it is asked, the coordinator records no error itself.
    pub callers_errors-accepted : (left i : ℕ) (w : W) → callers_errors i left w ≡ []
    unfolding call_callers
    callers_errors-accepted zero i w = refl
    callers_errors-accepted (suc left) i w =
        λ t. call_caller-accepted i w t ++ callers_errors-accepted left (suc i) (after_caller i w) t
