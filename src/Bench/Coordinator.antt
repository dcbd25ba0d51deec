-- ===== src/Bench/Coordinator.antt =====
-- cmd/bench_signaling/main.go, the coordinator: pairs are given to agents, and their results are
-- collected. `post` is what `http.Post` of a request to an address returns, on a world. The texts
-- are those of code points, and the requests for several pairs are sent in any order.
pub mod Csv
pub mod Rotation
pub mod Recorded
use webrtc_dht.Prelude.{
  ℕ, zero, suc, ◌+◌, ◌-◌, ◌*◌, ◌/◌, ◌%◌, Bool, true, false, ◌||◌, ◌&&◌, Option, none, some, List,
  [], ◌∷◌, ◌++◌, ltb, leb, ◌==◌, if◌then◌else◌, length, get_or, Text, codes,
}
use webrtc_dht.Types.{Error}
use webrtc_dht.Bench.Pairs.{RunPairRequest, PairResult}

csv_parts : Text → List Text → Text → List Text
csv_parts [] out cur = out ++ cur ∷ []
csv_parts (c ∷ s) out cur =
    let next = csv_parts s (out ++ cur ∷ []) [] in
    let same = csv_parts s out (cur ++ c ∷ []) in if c == b',' then next else same

unfoldable pub parse_csv : Text → List Text
unfolding csv_parts
parse_csv [] = []
parse_csv (c ∷ s) = csv_parts (c ∷ s) [] []

module _ {W : Type 0} (post : W → Text → W × Option Error) where
  tried : (W → W × Bool) → W × Option Error → W × Bool
  tried again (w, none) = (w, true)
  tried again (w, some e) = again w

  -- The loop over the attempts, from one on, with so many left.
  dispatch_from : List Text → ℕ → ℕ → ℕ → W → W × Bool
  unfolding tried
  dispatch_from agents start attempt zero w = (w, false)
  dispatch_from agents start attempt (suc left) w =
      tried (dispatch_from agents start (suc attempt) left)
        (post w (get_or agents ((start + attempt) % length agents) []))

  -- The agents are tried one after another, from one on and around.
  unfoldable pub dispatch_pair : List Text → ℕ → W → W × Bool
  unfolding dispatch_from
  dispatch_pair agents start w = dispatch_from agents start 0 (length agents) w

-- Milliseconds between two callers; only a table with many pairs needs them.
unfoldable pub caller_stagger : Bool → ℕ → ℕ
caller_stagger is_dht pairs = if is_dht && ltb 10 pairs then 20 else 0

abbrev pub warmup_ms : ℕ
warmup_ms = 600

abbrev pub poll_window_ms : ℕ
poll_window_ms = 1000

unfoldable pub start_delay : ℕ → ℕ → ℕ
start_delay stagger i = if ltb 0 stagger then warmup_ms + i * stagger - poll_window_ms / 2 else 0

unfoldable pub callee_agent : ℕ → ℕ → ℕ
callee_agent n i = i % n

unfoldable pub caller_agent : ℕ → ℕ → ℕ
caller_agent n i = (i + (n + 1) / 2) % n

unfoldable pub callee_request : ℕ → ℕ → Text → Text → RunPairRequest
unfolding start_delay
callee_request stagger i callee caller = record {
  pair_id = i;
  role = codes "callee";
  pair_callee_id_hex = callee;
  pair_caller_id_hex = caller;
  callback_url = [];
  start_delay_ms = start_delay stagger i;
}

unfoldable pub caller_request : Text → ℕ → Text → Text → RunPairRequest
caller_request callback i callee caller = record {
  pair_id = i;
  role = codes "caller";
  pair_callee_id_hex = callee;
  pair_caller_id_hex = caller;
  callback_url = callback;
  start_delay_ms = 0;
}

unfoldable pub unreachable : Text → ℕ → PairResult
unreachable signaling i = record {
  pair_id = i;
  signaling = signaling;
  latency_ns = 0;
  error = codes "all agents unreachable for caller dispatch_pair";
}

module _ {W : Type 0} (post : W → Text → RunPairRequest → W × Option Error) (agents : List Text)
    (callee_ids caller_ids : ℕ → Text) where
  -- The callee of a pair; if no agent takes it the pair will time out.
  unfoldable pub call_callee : ℕ → ℕ → W → W × Bool
  unfolding dispatch_pair callee_request callee_agent
  call_callee stagger i w =
      dispatch_pair
        (λ u agent. post u agent (callee_request stagger i (callee_ids i) (caller_ids i))) agents
        (callee_agent (length agents) i) w

  caller_result : Text → ℕ → W × Bool → W × List PairResult
  unfolding unreachable
  caller_result signaling i (w, true) = (w, [])
  caller_result signaling i (w, false) = (w, unreachable signaling i ∷ [])

  -- The caller of a pair, and the result that the coordinator records itself if no agent takes it.
  unfoldable pub call_caller : Text → Text → ℕ → W → W × List PairResult
  unfolding caller_result dispatch_pair caller_request caller_agent
  call_caller signaling callback i w = caller_result signaling i (
      dispatch_pair
        (λ u agent. post u agent (caller_request callback i (callee_ids i) (caller_ids i))) agents
        (caller_agent (length agents) i) w)

  -- The callers of so many pairs, from one on.
  unfoldable pub call_callers : Text → Text → ℕ → ℕ → W → W × List PairResult
  unfolding call_caller
  call_callers signaling callback i zero w = (w, [])
  call_callers signaling callback i (suc left) w =
      let (w₁, recorded) = call_caller signaling callback i w in
      let (w₂, rest) = call_callers signaling callback (suc i) left w₁ in (w₂, recorded ++ rest)

-- What has come so far, and whether the channel `done` holds the signal.
pub record Collected (A : Type 0) : Type 0 where
  pub results : List A
  pub done : Bool

unfoldable pub record_result : {A : Type 0} → ℕ → Collected A → A → Collected A
record_result pairs c res = record {
  results = c.results ++ res ∷ [];
  done = leb pairs (length (c.results ++ res ∷ [])) || c.done;
}

unfoldable pub record_all : {A : Type 0} → ℕ → Collected A → List A → Collected A
unfolding record_result
record_all pairs c [] = c
record_all pairs c (res ∷ rest) = record_all pairs (record_result pairs c res) rest
