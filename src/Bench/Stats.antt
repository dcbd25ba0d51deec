-- ===== src/Bench/Stats.antt =====
-- The medians that the programs print: `medianDur` of cmd/bench_transport/main.go sorts a copy by
-- `sort.Slice`, `median` of cmd/webrtc_blob_local_test/main.go by swaps. Durations are numbers.
pub mod Insertion
pub mod Median
use webrtc_dht.Prelude.{
  ℕ, zero, suc, ◌-◌, ◌/◌, List, [], ◌∷◌, ltb, if◌then◌else◌, length, get_or, set,
}
use webrtc_dht.Prelude.Sort.{sort_by}

-- `sort.Slice` of a copy.
abbrev pub sorted_copy : List ℕ → List ℕ
sorted_copy ds = sort_by (λ d. d) ds

unfoldable pub median_dur : List ℕ → ℕ
median_dur [] = 0
median_dur (d ∷ ds) = get_or (sorted_copy (d ∷ ds)) (length (sorted_copy (d ∷ ds)) / 2) 0

-- The inner loop from a place down.
unfoldable pub swap_down : ℕ → List ℕ → List ℕ
swap_down zero xs = xs
swap_down (suc j) xs =
    let rest = swap_down j (set (set xs (suc j) (get_or xs j 0)) j (get_or xs (suc j) 0)) in
    if ltb (get_or xs (suc j) 0) (get_or xs j 0) then rest else xs

-- The outer loop, with so many places left, from one on.
unfoldable pub sort_places : ℕ → ℕ → List ℕ → List ℕ
unfolding swap_down
sort_places zero i xs = xs
sort_places (suc left) i xs = sort_places left (suc i) (swap_down i xs)

abbrev pub swap_sort : List ℕ → List ℕ
swap_sort ds = sort_places (length ds - 1) 1 ds

unfoldable pub median : List ℕ → ℕ
unfolding sort_places
median [] = 0
median (d ∷ ds) = get_or (swap_sort (d ∷ ds)) (length (swap_sort (d ∷ ds)) / 2) 0
