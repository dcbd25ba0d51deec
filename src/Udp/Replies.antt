-- ===== src/Udp/Replies.antt =====
-- transport/udp/udp.go: replies and the requests that wait for them.
use webrtc_dht.Prelude.{
  ℕ, Bool, true, false, subst, ◌≡◌, refl, sym, ◌∙◌, ap, ◌≢◌, Option, none, some, List, [], ◌∷◌, ite,
  if_pos, if_neg, Text,
}
use webrtc_dht.Prelude.Assoc
use webrtc_dht.Key.{key_eq}
use webrtc_dht.Types.{Error, not_found, error_text, Result, ok, err, ok-injective, NetworkNode}
use webrtc_dht.Udp.{answer_of, attempts, send_req, Message, Pending, offer, reply_at, handle_reply}

-- The replies in the order in which they are handled.
pub handle_replies : Pending → List Message → Pending
handle_replies pending [] = pending
handle_replies pending (m ∷ ms) = handle_replies (handle_reply pending m) ms

-- The first reply to a request.
pub first_for : Text → List Message → Option Message
first_for id [] = none
first_for id (m ∷ ms) = ite (key_eq m.req_id id) (some m) (first_for id ms)

-- A channel of capacity one: what is there stays.
abbrev kept : Option Message → Option Message → Option Message
kept none later = later
kept (some m) later = some m

lookup-reply_at :
    (id : Text) (pending : Pending) (m : Message) (found : Option (Option Message))
    → Assoc.lookup key_eq m.req_id pending ≡ found
    → m.req_id ≢ id
    → Assoc.lookup key_eq id (reply_at pending m found) ≡ Assoc.lookup key_eq id pending
unfolding reply_at
lookup-reply_at id pending m none e ne = refl
lookup-reply_at id pending m (some ch) e ne =
    Assoc.lookup-assign key_eq m.req_id id (offer ch m) pending ∙ if_neg (key_eq m.req_id id) ne _ _

lookup-handle_reply_ne :
    (id : Text) (pending : Pending) (m : Message)
    → m.req_id ≢ id
    → Assoc.lookup key_eq id (handle_reply pending m) ≡ Assoc.lookup key_eq id pending
unfolding handle_reply
lookup-handle_reply_ne id pending m ne = lookup-reply_at id pending m _ refl ne

lookup-handle_reply_self :
    (id : Text) (pending : Pending) (m : Message) (ch : Option Message)
    → Assoc.lookup key_eq id pending ≡ some ch
    → m.req_id ≡ id
    → Assoc.lookup key_eq id (handle_reply pending m) ≡ some (offer ch m)
unfolding handle_reply reply_at
lookup-handle_reply_self id pending m ch e same =
    let there : Assoc.lookup key_eq m.req_id pending ≡ some ch = rw same e in
    rw (there, handle_reply)
      (Assoc.lookup-assign key_eq m.req_id id (offer ch m) pending
        ∙ if_pos (key_eq m.req_id id) same _ _)

lookup-handle_replies :
    (id : Text) (pending : Pending) (ms : List Message) (ch : Option Message)
    → Assoc.lookup key_eq id pending ≡ some ch
    → Assoc.lookup key_eq id (handle_replies pending ms) ≡ some (kept ch (first_for id ms))
unfolding handle_replies first_for
lookup-handle_replies id pending [] none e = e
lookup-handle_replies id pending [] (some m) e = e
lookup-handle_replies id pending (m ∷ ms) none e = elim (key_eq m.req_id id) [
  | yes same ↦
      lookup-handle_replies id (handle_reply pending m) ms (some m)
        (lookup-handle_reply_self id pending m none e same)
      ∙ ap some (sym (if_pos (key_eq m.req_id id) same _ _))
  | no other ↦
      lookup-handle_replies id (handle_reply pending m) ms none
        (lookup-handle_reply_ne id pending m other ∙ e)
      ∙ ap some (sym (if_neg (key_eq m.req_id id) other _ _))
]
lookup-handle_replies id pending (m ∷ ms) (some first) e = elim (key_eq m.req_id id) [
  | yes same ↦
      lookup-handle_replies id (handle_reply pending m) ms (some first)
        (lookup-handle_reply_self id pending m (some first) e same)
  | no other ↦
      lookup-handle_replies id (handle_reply pending m) ms (some first)
        (lookup-handle_reply_ne id pending m other ∙ e)
]

-- After a request is noted, and whatever replies come in whatever order, its channel holds the
-- first reply that bears its identifier, and nothing if there is none.
pub handle_replies-first_for :
    (id : Text) (pending : Pending) (ms : List Message)
    → Assoc.lookup key_eq id (handle_replies (Assoc.assign key_eq id none pending) ms)
      ≡ some (first_for id ms)
handle_replies-first_for id pending ms =
    lookup-handle_replies id (Assoc.assign key_eq id none pending) ms none
      (Assoc.lookup-assign key_eq id id none pending ∙ if_pos (key_eq id id) refl _ _)

err_ne_ok : {x : Error} {m : Message} → ◌≢◌ {A = Result Message} (err x) (ok m)
err_ne_ok e = cc

answer_of-eq-ok : (m resp : Message) → answer_of m ≡ ok resp → (m ≡ resp) × (resp.error ≡ [])
unfolding answer_of
answer_of-eq-ok m resp e = elim (key_eq m.error []) [
  | yes a ↦
      let same : m ≡ resp = ok-injective (sym (if_pos (key_eq m.error []) a _ _) ∙ e) in
      (same, subst (λ (n : Message). n.error ≡ []) same a)
  | no a ↦
      let failed = sym (if_neg (key_eq m.error []) a _ _) ∙ e in
      elim (key_eq m.error (error_text not_found)) [
        | yes b ↦
            absurd (err_ne_ok (sym (if_pos (key_eq m.error (error_text not_found)) b _ _) ∙ failed))
        | no b ↦
            absurd (err_ne_ok (sym (if_neg (key_eq m.error (error_text not_found)) b _ _) ∙ failed))
      ]
]

module _ (addr : Text) (write : ℕ → Option Error) (reply : ℕ → Option Message) where
  -- A call that returns an answer has sent its message, on a transport that listens, to a target
  -- that is given; the answer came before the timeout and reports no error.
  pub send_req-eq-ok :
      (listening : Bool) (target : Option NetworkNode) (encoding : Option Error) (resp : Message)
      → send_req addr write reply listening target encoding ≡ ok resp
      → (listening ≡ true)
        × (target ≢ none)
        × (encoding ≡ none)
        × (write 0 ≡ none)
        × (reply 0 ≡ some resp)
        × (resp.error ≡ [])
  unfolding send_req attempts
  send_req-eq-ok false target encoding resp e = absurd (cc)
  send_req-eq-ok true none encoding resp e = absurd (cc)
  send_req-eq-ok true (some target) (some x) resp e = absurd (cc)
  send_req-eq-ok true (some target) none resp e = written (write 0) (reply 0) refl refl e
    where
      Goal : Type 0
      Goal =
          (true ≡ true)
          × (some target ≢ none)
          × (◌≡◌ {A = Option Error} none none)
          × (write 0 ≡ none)
          × (reply 0 ≡ some resp)
          × (resp.error ≡ [])

      written :
          (a : Option Error) (b : Option Message)
          → write 0 ≡ a
          → reply 0 ≡ b
          → ◌≡◌ {A = Result Message}
              (elim a [
                | some x ↦ err x
                | none ↦ elim b [ some m ↦ answer_of m | none ↦ attempts addr write reply 0 1 ]
              ])
              (ok resp)
          → Goal
      written (some x) b p q e = absurd (cc)
      written none none p q e = absurd (cc)
      written none (some m) p q e =
          let (same, clean) = answer_of-eq-ok m resp e in
          (refl, (λ x. absurd (cc)), refl, p, q ∙ ap some same, clean)
