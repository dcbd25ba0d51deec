-- ===== src/Tests/Bench.antt =====
-- The programs that measure the library, and a first node, tried on small inputs.
use webrtc_dht.Prelude.{
  ℕ, ◌≡◌, refl, ap, ◌≢◌, arith, true, false, none, some, [], ◌∷◌, codes, get_or,
}
use webrtc_dht.Signaling.Dht.{inline_meta}
use webrtc_dht.Bench.Pairs.{
  pair_offer_key, pair_answer_key, pair_bell_key, answer_to_offer, offer_data, callee_round,
  run_caller,
}
use webrtc_dht.Bench.Pairs.Relayed.{rung_world, silent_world, run_caller-callee_round}
use webrtc_dht.Bench.Stats.{median, median_dur}
use webrtc_dht.Bench.Stats.Median.{median-eq-median_dur}
use webrtc_dht.Tests.Data.{key, key-IsKey}
use webrtc_dht.Tests.Signaling.{dht, sha1, reliable}

bell-ne-offer : pair_bell_key sha1 (key 2) ≢ pair_offer_key sha1 (key 9) (key 2)
unfolding pair_bell_key pair_offer_key codes
bell-ne-offer e = let c : ◌≡◌ {A = ℕ} 98 111 = ap (λ t. get_or t 2 0) e in omega arith

bell-ne-answer : pair_bell_key sha1 (key 2) ≢ pair_answer_key sha1 (key 9) (key 2)
unfolding pair_bell_key pair_answer_key codes
bell-ne-answer e = let c : ◌≡◌ {A = ℕ} 98 97 = ap (λ t. get_or t 2 0) e in omega arith

run_caller-callee_round_example :
    let silent = silent_world dht sha1 reliable (key 9) (key 2) 4 [] in
    ((callee_round dht sha1 (key 2) (rung_world dht sha1 reliable (key 9) (key 2) 4 [])).1 ≡ true)
    × (run_caller dht sha1
          (λ u. ((callee_round dht sha1 (key 2) u).0, false))
          1
          (key 9)
          (key 2)
          4
          []
        ≡ some (silent, none))
    × (reliable.read silent (pair_answer_key sha1 (key 9) (key 2))
        ≡ some (inline_meta (some (answer_to_offer (offer_data 4)))))
    × (reliable.read silent (pair_bell_key sha1 (key 2)) ≡ some (inline_meta none))
run_caller-callee_round_example =
    run_caller-callee_round dht sha1 reliable (key 9) (key 2) 4 [] 0 (key-IsKey 9 (omega arith))
      bell-ne-offer bell-ne-answer

median-eq-median_dur_example : median (5 ∷ 2 ∷ 9 ∷ 2 ∷ []) ≡ median_dur (5 ∷ 2 ∷ 9 ∷ 2 ∷ [])
median-eq-median_dur_example = median-eq-median_dur (5 ∷ 2 ∷ 9 ∷ 2 ∷ [])

median-test : median (9 ∷ 2 ∷ 5 ∷ []) ≡ 5
unfolding median
median-test = refl
