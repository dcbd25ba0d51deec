-- ===== src/Lookup/Answered.antt =====
-- dht/logic.go: what the transports that a search runs over have in common, where a value that is not
-- found is no error.
use webrtc_dht.Prelude.{
  ◌≡◌, ap, subst, Bool, true, false, Option, none, List, [], All, if◌then◌else◌,
}
use webrtc_dht.Types.{Error, Result, ok, err, ok-injective, NetworkNode, ValueMeta}
use webrtc_dht.Routing.Invariant.{IsPeer}
use webrtc_dht.Lookup.Rounds.{Whenever}

pub err-ne-ok : {A : Type 0} {e : Error} {a : A} → err e ≡ ok a → ⊥
err-ne-ok h = cc

-- An answer with nothing in it has no contact without a key, and no value.
pub nothing :
    (V : ValueMeta → Type 0) (b : Bool) (e : Error) (v : Option ValueMeta) (ns : List NetworkNode)
    → if◌then◌else◌ {A = Result (Option ValueMeta × List NetworkNode)} b (ok (none, [])) (err e)
      ≡ ok (v, ns)
    → All IsPeer ns × Whenever V v
nothing V true e v ns h =
    let same = ok-injective h in
    (subst (All IsPeer) (ap (λ p. p.1) same) tt, subst (Whenever V) (ap (λ p. p.0) same) tt)
nothing V false e v ns h = absurd (err-ne-ok h)
