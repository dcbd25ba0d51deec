-- ===== src/Signaling/Direct/Offers.antt =====
-- transport/webrtc/signaling.go, `DirectSignaler`: an offer to a node that listens.
use webrtc_dht.Prelude.{
  ◌/◌, Bool-cases, inl, inr, ℕ, zero, suc, ◌≡◌, refl, ap, ◌∙◌, ◌≢◌, [], ◌∷◌, ◌++◌, Text, Bytes,
  codes, ℤ, pos, negsuc, decimal, decimal_int, decimal_from, ltb, ite, if_pos, if_neg, ◌⊎◌,
}
use webrtc_dht.Prelude.Assoc
use webrtc_dht.Key.{key_eq}
use webrtc_dht.Types.{Error, message, wrapped, error_text, Result, ok, err, NetworkNode}
use webrtc_dht.Signaling.{SignalPayload}
use webrtc_dht.Signaling.Direct.{
  DirectSignaler, sig_port_name, entries, listen_offers, Response, answer_response, handle_payload,
  handle_offer, sig_port, answer_text, send_to, send_offer,
}

cons-ne-nil : (c : ℕ) (cs : Text) → c ∷ cs ≢ []
cons-ne-nil c cs e = cc

decimal_from-ne-nil : (fuel n : ℕ) (acc : Text) → acc ≢ [] → decimal_from fuel n acc ≢ []
unfolding decimal_from
decimal_from-ne-nil zero n acc h = h
decimal_from-ne-nil (suc fuel) n acc h = elim (Bool-cases (ltb n 10)) [
  | inl e ↦ rw e (cons-ne-nil _ _)
  | inr e ↦ rw e (decimal_from-ne-nil fuel (n / 10) _ (cons-ne-nil _ _))
]

decimal-ne-nil : (n : ℕ) → decimal n ≢ []
unfolding decimal decimal_from
decimal-ne-nil n = elim (Bool-cases (ltb n 10)) [
  | inl e ↦ rw e (cons-ne-nil _ _)
  | inr e ↦ rw e (decimal_from-ne-nil n (n / 10) _ (cons-ne-nil _ _))
]

pub decimal_int-ne-nil : (i : ℤ) → decimal_int i ≢ []
unfolding decimal_int
decimal_int-ne-nil (pos n) = decimal-ne-nil n
decimal_int-ne-nil (negsuc n) = cons-ne-nil _ _

-- A contact that listens is known by its port.
pub sig_port-listen_offers :
    (s : DirectSignaler) (own : NetworkNode) → sig_port (listen_offers s own).1 ≡ decimal_int s.port
unfolding sig_port listen_offers
sig_port-listen_offers s own = rw (
  Assoc.lookup-assign_self key_eq sig_port_name (decimal_int s.port) (entries own.meta),
  sig_port,
)

-- The text of an error as `http.Error` writes it, and as the caller reports it.
abbrev pub reported : Result Text → Result Text
reported (ok answer) = ok answer
reported (err e) = err (message (codes "DirectSignaler: status 500: " ++ error_text e ++ 10 ∷ []))

-- A network that carries a request to the node `own`, which listens on the port, and the response
-- back; whatever is sent to another address or port fails with `refused`.
module _ {W : Type 0} (decode : Bytes → Result SignalPayload) (encode : SignalPayload → Bytes)
    (handler : W → SignalPayload → W × Result Text) (own : NetworkNode) (port : ℤ)
    (refused : Error) where
  abbrev pub carry : W → Bytes → Text → Bytes → W × Result Response
  carry w address p body =
      let (w', r) = handle_offer decode handler w body in
      ite (key_eq address own.address)
        (ite (key_eq p (decimal_int port)) (w', ok r) (w, err refused)) (w, err refused)

  reported_lem : (r : Result Text) → answer_text (ok (answer_response r)) ≡ reported r
  unfolding answer_text answer_response codes decimal
  reported_lem (ok answer) = refl
  reported_lem (err e) = refl

  carry-reached :
      (w : W) (body : Bytes)
      → carry w own.address (decimal_int port) body
        ≡ ((handle_offer decode handler w body).0, ok (handle_offer decode handler w body).1)
  carry-reached w body =
      if_pos (key_eq own.address own.address) refl _ _
      ∙ if_pos (key_eq (decimal_int port) (decimal_int port)) refl _ _

  carry-refused :
      (w : W) (address : Bytes) (p : Text) (body : Bytes)
      → (address ≢ own.address) ⊎ (p ≢ decimal_int port)
      → carry w address p body ≡ (w, err refused)
  carry-refused w address p body (inl far) = if_neg (key_eq address own.address) far _ _
  carry-refused w address p body (inr other) = elim (key_eq address own.address) [
    | yes e ↦
        if_pos (key_eq address own.address) e _ _ ∙ if_neg (key_eq p (decimal_int port)) other _ _
    | no far ↦ if_neg (key_eq address own.address) far _ _
  ]

  -- A request that is made for a contact with a port.
  send_to-post :
      (w : W) (target : NetworkNode) (payload : SignalPayload) (p : Text)
      → p ≢ []
      → send_to carry encode w target payload p ≡ (
        (carry w target.address p (encode payload)).0,
        answer_text (carry w target.address p (encode payload)).1,
      )
  unfolding send_to
  send_to-post w target payload [] some_port = absurd (some_port refl)
  send_to-post w target payload (c ∷ cs) some_port = refl

  handled :
      (w : W) (payload : SignalPayload)
      → decode (encode payload) ≡ ok payload
      → handle_offer decode handler w (encode payload)
        ≡ ((handler w payload).0, answer_response (handler w payload).1)
  unfolding handle_offer handle_payload
  handled w payload back = rw back refl

  -- An offer to a contact as it is once it listens runs the handler of that node on the payload; the
  -- caller has the handler's answer, or an error with its text.
  pub send_offer-listen_offers :
      (w : W) (s : DirectSignaler) (payload : SignalPayload)
      → s.port ≡ port
      → decode (encode payload) ≡ ok payload
      → send_offer carry encode w (listen_offers s own).1 payload
        ≡ ((handler w payload).0, reported (handler w payload).1)
  unfolding send_offer listen_offers
  send_offer-listen_offers w s payload same back =
      let target = (listen_offers s own).1 in
      let found = sig_port-listen_offers s own ∙ ap decimal_int same in
      ap (send_to carry encode w target payload) found
      ∙ send_to-post w target payload (decimal_int port) (decimal_int-ne-nil port)
      ∙ ap (λ (r : W × Result Response). (r.0, answer_text r.1)) (carry-reached w (encode payload))
      ∙ ap (λ (r : W × Response). (r.0, answer_text (ok r.1))) (handled w payload back)
      ∙ ap (λ t. ((handler w payload).0, t)) (reported_lem (handler w payload).1)

  -- An offer to a contact with another address or another port reaches nobody.
  pub send_offer-refused :
      (w : W) (target : NetworkNode) (payload : SignalPayload)
      → sig_port target ≢ []
      → (target.address ≢ own.address) ⊎ (sig_port target ≢ decimal_int port)
      → send_offer carry encode w target payload
        ≡ (w, err (wrapped (codes "DirectSignaler: ") refused))
  unfolding send_offer answer_text
  send_offer-refused w target payload some_port away =
      send_to-post w target payload (sig_port target) some_port
      ∙ ap (λ (r : W × Result Response). (r.0, answer_text r.1))
          (carry-refused w target.address (sig_port target) (encode payload) away)
