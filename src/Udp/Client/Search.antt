-- ===== src/Udp/Client/Search.antt =====
-- transport/udp/udp.go and dht/logic.go: a search over UDP.
use webrtc_dht.Prelude.{
  ◌≡◌, refl, ap, subst, ◌^◌, ◌<◌, ℕ, Bool, Option, none, some, List, All, Text, Bytes, true,
}
use webrtc_dht.Key.{NodeId}
use webrtc_dht.Types.{Error, is_not_found, Result, ok, err, ok-injective, NetworkNode, ValueMeta}
use webrtc_dht.Node.{Node}
use webrtc_dht.Node.Laws.{IsNode}
use webrtc_dht.Storage.Files.{Formats}
use webrtc_dht.Transport.{Transport}
use webrtc_dht.Routing.Invariant.{IsPeer}
use webrtc_dht.Lookup.{iterative_search, Done}
use webrtc_dht.Lookup.Rounds.{Answers, Whenever}
use webrtc_dht.Lookup.Answered.{err-ne-ok, nothing}
use webrtc_dht.Lookup.Outcome.{IsDone}
use webrtc_dht.Lookup.Termination.{iterative_search-IsDone}
use webrtc_dht.Udp.{Message, nodes_of, value_of}
use webrtc_dht.Udp.Replies.{send_req-eq-ok}
use webrtc_dht.Udp.Client.{exchanged, requested, find_node_at, find_value_at, udp_transport}

module _ {W : Type 0} (own : NetworkNode) (show_addr : NetworkNode → Text) (random : W → Bytes)
    (encoding : Message → Option Error)
    (exchange : W → NetworkNode → Message → W × (ℕ → Option Error) × (ℕ → Option Message))
    (fetch : W → NetworkNode → Text → W × Result Bytes)
    (schedule : W → List NetworkNode → W × List NetworkNode) (context_error : W → Option Error)
    (V : ValueMeta → Type 0)
    (good : (w : W) (target : NetworkNode) (msg m : Message) (attempt : ℕ)
      → (exchange w target msg).2 attempt ≡ some m
      → All IsPeer m.nodes × Whenever V m.value) where
  abbrev pub over : Transport
  over = udp_transport own show_addr random encoding exchange fetch schedule context_error

  exchanged-good :
      (w : W) (target : NetworkNode) (sent : Message) (e : Option Error) (m : Message)
      → (exchanged own show_addr random encoding exchange w target sent e).1 ≡ ok m
      → All IsPeer m.nodes × Whenever V m.value
  unfolding exchanged
  exchanged-good w target sent (some e) m h = absurd (err-ne-ok h)
  exchanged-good w target sent none m h =
      let all =
        send_req-eq-ok (show_addr target) (exchange w target sent).1 (exchange w target sent).2 true
          (some target) none m h in
      good w target sent m 0 all.4

  nodes_of-good :
      (r : Result Message) (ns : List NetworkNode)
      → ((m : Message) → r ≡ ok m → All IsPeer m.nodes × Whenever V m.value)
      → nodes_of r ≡ ok ns
      → All IsPeer ns
  nodes_of-good (ok m) ns g h = subst (All IsPeer) (ok-injective h) (g m refl).0
  nodes_of-good (err e) ns g h = absurd (err-ne-ok h)

  value_of-good :
      (r : Result Message) (v : Option ValueMeta) (ns : List NetworkNode)
      → ((m : Message) → r ≡ ok m → All IsPeer m.nodes × Whenever V m.value)
      → value_of r ≡ ok (v, ns)
      → All IsPeer ns × Whenever V v
  value_of-good (ok m) v ns g h =
      let same = ok-injective h in
      (
        subst (All IsPeer) (ap (λ p. p.1) same) (g m refl).0,
        subst (Whenever V) (ap (λ p. p.0) same) (g m refl).1,
      )
  value_of-good (err e) v ns g h = nothing V (is_not_found e) e v ns h

  pub udp_transport-Answers : Answers over IsPeer V
  unfolding find_node_at find_value_at requested
  udp_transport-Answers = record {
    nodes = λ w n id ns h. nodes_of-good _ ns (exchanged-good w n _ _) h;
    others = λ w n key v ns h. (value_of-good _ v ns (exchanged-good w n _ _) h).0;
    values = λ w n key v ns h. (value_of-good _ (some v) ns (exchanged-good w n _ _) h).1;
  }

  -- A search over UDP from a correct node, with more than 2 ^ 160 of fuel, ends as a search does,
  -- whichever requests fail; if in the replies that come every contact has a key, and `V` holds of
  -- every value.
  pub iterative_search-udp_transport :
      (F : Formats) (fuel : ℕ) (w : W) (node : Node) (target : NodeId) (b : Bool)
      → 2 ^ 160 < fuel
      → IsNode node
      → (d : Done F over) × (iterative_search F over fuel w node target b ≡ some d)
        × IsDone F over IsPeer V (λ _ p. p) udp_transport-Answers b target node.self d
  iterative_search-udp_transport F fuel w node target b enough h =
      iterative_search-IsDone F over V udp_transport-Answers fuel w node target b enough h
