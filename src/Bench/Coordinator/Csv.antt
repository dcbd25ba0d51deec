-- ===== src/Bench/Coordinator/Csv.antt =====
-- cmd/bench_signaling/main.go, `parseCSV`: a list of addresses and the text that spells it.
use webrtc_dht.Prelude.{
  ◌≡◌, refl, ap, ◌∙◌, sym, ◌≢◌, List, [], ◌∷◌, ◌++◌, arith, ◌==◌, false, Text, All,
}
use mathlib.Core.List.{append_assoc, append-nil}
use webrtc_dht.Bench.Coordinator.{csv_parts, parse_csv}

-- The parts with commas between them.
abbrev pub with_commas : List Text → Text
with_commas [] = []
with_commas (p ∷ []) = p
with_commas (p ∷ q ∷ ps) = p ++ b',' ∷ with_commas (q ∷ ps)

abbrev pub HasNoComma : Text → Type 0
HasNoComma = All (λ c. c ≢ b',')

-- A part without a comma is added to the current one.
csv_parts-append :
    (p rest : Text) (out : List Text) (cur : Text)
    → HasNoComma p
    → csv_parts (p ++ rest) out cur ≡ csv_parts rest out (cur ++ p)
unfolding csv_parts
csv_parts-append [] rest out cur h = ap (csv_parts rest out) (sym (append-nil cur))
csv_parts-append (c ∷ p) rest out cur h =
    let not_comma : (c == b',') ≡ false = ground (arith, h.0) in
    rw not_comma (
      csv_parts-append p rest out (cur ++ c ∷ []) h.1
      ∙ ap (csv_parts rest out) (append_assoc cur (c ∷ []) p))

csv_parts-with_commas :
    (p : Text) (ps : List Text) (out : List Text) (cur : Text)
    → All HasNoComma (p ∷ ps)
    → csv_parts (with_commas (p ∷ ps)) out cur ≡ out ++ (cur ++ p) ∷ ps
unfolding csv_parts
csv_parts-with_commas p [] out cur h =
    ap (λ t. csv_parts t out cur) (sym (append-nil p)) ∙ csv_parts-append p [] out cur h.0
csv_parts-with_commas p (q ∷ ps) out cur h =
    csv_parts-append p (b',' ∷ with_commas (q ∷ ps)) out cur h.0
    ∙ csv_parts-with_commas q ps (out ++ (cur ++ p) ∷ []) [] h.1
    ∙ append_assoc out ((cur ++ p) ∷ []) (q ∷ ps)

parse_csv-nonempty : (s : Text) → s ≢ [] → parse_csv s ≡ csv_parts s [] []
unfolding parse_csv
parse_csv-nonempty [] h = absurd (h refl)
parse_csv-nonempty (c ∷ s) h = refl

with_commas-ne_nil : (p : Text) (ps : List Text) → p ≢ [] → with_commas (p ∷ ps) ≢ []
with_commas-ne_nil [] ps h e = h refl
with_commas-ne_nil (c ∷ p) [] h e = cc
with_commas-ne_nil (c ∷ p) (q ∷ ps) h e = cc

-- Addresses with commas between them are read as these addresses, if none has a comma and the first
-- is not empty; no address at all is read from the empty text.
pub parse_csv-with_commas :
    (p : Text) (ps : List Text)
    → p ≢ []
    → All HasNoComma (p ∷ ps)
    → (parse_csv (with_commas (p ∷ ps)) ≡ p ∷ ps) × (parse_csv [] ≡ [])
unfolding parse_csv
parse_csv-with_commas p ps ne h =
    (parse_csv-nonempty _ (with_commas-ne_nil p ps ne) ∙ csv_parts-with_commas p ps [] [] h, refl)
