-- ===== src/SignalServer/Registry.antt =====
-- cmd/signal_server/main.go: whom the map of peers names.
use webrtc_dht.Prelude.{
  ℕ, ◌≡◌, refl, sym, ap, ◌∙◌, ◌≢◌, ◌⊎◌, inl, inr, Option, none, some, List, [], ◌∷◌, if_pos,
  ℕ_discrete, Text, eq_of_some, Option-cases, subst,
}
use webrtc_dht.Prelude.Assoc
use webrtc_dht.Key.{key_eq}
use webrtc_dht.Signaling.{SignalMsg}
use webrtc_dht.SignalServer.{
  Server, Forward, new_server, accept, register, drop_peer, disconnect, do_forward,
}

-- What the peers do: a client registers once, under a name that is not empty.
pub data Step (s : Server) : Server → Type 0 where
  accepts : (conn : ℕ) → Assoc.lookup ℕ_discrete conn s.conns ≡ none → Step s (accept s conn)
  registers :
      (conn : ℕ) (id : Text)
      → id ≢ []
      → Assoc.lookup ℕ_discrete conn s.conns ≡ some []
      → Step s (register s conn id)
  closes : (conn : ℕ) → Step s (disconnect s conn)

pub data Reach : Server → Type 0 where
  start : Reach new_server
  next : {s t : Server} → Reach s → Step s t → Reach t

-- The map names no connection but one that is open and that was registered under that name.
abbrev pub IsLive : Server → Type 0
IsLive s =
    (id : Text) (conn : ℕ)
    → Assoc.lookup key_eq id s.peers ≡ some conn
    → (Assoc.lookup ℕ_discrete conn s.conns ≡ some id) × (id ≢ [])

accept-IsLive :
    (s : Server) (conn : ℕ)
    → Assoc.lookup ℕ_discrete conn s.conns ≡ none
    → IsLive s
    → IsLive (accept s conn)
unfolding accept
accept-IsLive s conn fresh h id c e =
    let (named, some_id) = h id c e in
    let ne : conn ≢ c = λ same. absurd (cc (fresh, named, same)) in
    (Assoc.lookup-assign_ne ℕ_discrete conn c [] s.conns ne ∙ named, some_id)

register-IsLive :
    (s : Server) (conn : ℕ) (id : Text)
    → id ≢ []
    → Assoc.lookup ℕ_discrete conn s.conns ≡ some []
    → IsLive s
    → IsLive (register s conn id)
unfolding register
register-IsLive s conn id some_id unnamed h j c e = elim (key_eq id j) [
  | yes same ↦
      let mine : conn ≡ c =
        eq_of_some (
          sym (Assoc.lookup-assign key_eq id j conn s.peers ∙ if_pos (key_eq id j) same _ _) ∙ e) in
      (
        rw (← mine, ← same) (Assoc.lookup-assign_self ℕ_discrete conn id s.conns),
        rw (← same) some_id,
      )
  | no other ↦
      let (named, some_j) =
        h j c (sym (Assoc.lookup-assign_ne key_eq id j conn s.peers other) ∙ e) in
      let ne : conn ≢ c = λ same. some_j (
        eq_of_some
          (sym named ∙ ap (λ n. Assoc.lookup ℕ_discrete n s.conns) (sym same) ∙ unnamed)) in
      (Assoc.lookup-assign_ne ℕ_discrete conn c id s.conns ne ∙ named, some_j)
]

-- An entry that is left names another connection than the one that closes.
drop_peer-left :
    (peers : List (Text × ℕ)) (name : Option Text) (id : Text) (c : ℕ)
    → Assoc.lookup key_eq id (drop_peer peers name) ≡ some c
    → (Assoc.lookup key_eq id peers ≡ some c) × (name ≢ some id ⊎ (id ≡ []))
unfolding drop_peer
drop_peer-left peers none id c e = (e, inl (λ x. cc))
drop_peer-left peers (some []) id c e = elim (key_eq id []) [
  | yes nil ↦ (e, inr nil)
  | no other ↦ (e, inl (λ x. other (sym (eq_of_some x))))
]
drop_peer-left peers (some (a ∷ rest)) id c e =
    let (ne, there) = Assoc.lookup-remove-some key_eq (a ∷ rest) id peers e in
    (there, inl (λ x. ne (eq_of_some x)))

disconnect-IsLive : (s : Server) (conn : ℕ) → IsLive s → IsLive (disconnect s conn)
unfolding disconnect
disconnect-IsLive s conn h id c e =
    let (there, left) = drop_peer-left s.peers (Assoc.lookup ℕ_discrete conn s.conns) id c e in
    let (named, some_id) = h id c there in
    let ne : conn ≢ c = λ same. elim left [
      | inl other ↦ other (ap (λ n. Assoc.lookup ℕ_discrete n s.conns) same ∙ named)
      | inr nil ↦ some_id nil
    ] in
    (Assoc.lookup-remove_ne ℕ_discrete conn c s.conns ne ∙ named, some_id)

Step-IsLive : {s t : Server} → Step s t → IsLive s → IsLive t
Step-IsLive {s} (accepts conn fresh) h = accept-IsLive s conn fresh h
Step-IsLive {s} (registers conn id some_id unnamed) h = register-IsLive s conn id some_id unnamed h
Step-IsLive {s} (closes conn) h = disconnect-IsLive s conn h

new_server-IsLive : IsLive new_server
unfolding new_server Assoc.lookup
new_server-IsLive id c e = absurd (cc)

Reach-IsLive : {s : Server} → Reach s → IsLive s
Reach-IsLive start = new_server-IsLive
Reach-IsLive (next r st) = Step-IsLive st (Reach-IsLive r)

-- Where every client registers at most once, under a name that is not empty, and in whatever order
-- they connect, register and leave, a message is passed on only over a connection that is open and
-- that was registered under the identifier it is for; and it is passed on as it came.
pub do_forward-Reach :
    {s : Server} (f : Forward) (conn : ℕ) (msg : SignalMsg)
    → Reach s
    → do_forward s f ≡ some (conn, msg)
    → (Assoc.lookup ℕ_discrete conn s.conns ≡ some f.target) × (msg ≡ f.msg)
unfolding do_forward
do_forward-Reach {s} f conn msg r e = elim (Option-cases (Assoc.lookup key_eq f.target s.peers)) [
  | inl gone ↦ absurd (cc (gone, e))
  | inr (c, there) ↦
      let sent : ◌≡◌ {A = Option (ℕ × SignalMsg)} (some (c, f.msg)) (some (conn, msg)) =
        rw (there, do_forward) at e in
      let pair = eq_of_some sent in
      (
        subst (λ n. Assoc.lookup ℕ_discrete n s.conns ≡ some f.target) (ap (λ p. p.0) pair)
            (Reach-IsLive r f.target c there).0,
        sym (ap (λ p. p.1) pair),
      )
]

drop_peer_self :
    (peers : List (Text × ℕ)) (id : Text)
    → id ≢ []
    → Assoc.lookup key_eq id (drop_peer peers (some id)) ≡ none
unfolding drop_peer
drop_peer_self peers [] h = absurd (h refl)
drop_peer_self peers (c ∷ cs) h = Assoc.lookup-remove_self key_eq (c ∷ cs) peers

do_forward-eq-none :
    (s : Server) (f : Forward) → Assoc.lookup key_eq f.target s.peers ≡ none → do_forward s f ≡ none
unfolding do_forward
do_forward-eq-none s f e = rw (e, do_forward)

-- A client that connects and registers again, under its name, which is not empty, before its old
-- connection is seen to close is lost when that closes: it is still connected under its name, and
-- no message reaches it any more.
pub disconnect-lost :
    (s : Server) (old new : ℕ) (f : Forward)
    → old ≢ new
    → f.target ≢ []
    → let s' = disconnect (register (register s old f.target) new f.target) old in
      (Assoc.lookup ℕ_discrete new s'.conns ≡ some f.target) × (do_forward s' f ≡ none)
unfolding disconnect register
disconnect-lost s old new f apart some_id =
    let conns = Assoc.assign ℕ_discrete old f.target s.conns in
    let peers = Assoc.assign key_eq f.target new (Assoc.assign key_eq f.target old s.peers) in
    let name : Assoc.lookup ℕ_discrete old (Assoc.assign ℕ_discrete new f.target conns)
        ≡ some f.target =
      Assoc.lookup-assign_ne ℕ_discrete new old f.target conns (λ e. apart (sym e))
      ∙ Assoc.lookup-assign_self ℕ_discrete old f.target s.conns in
    (
      Assoc.lookup-remove_ne ℕ_discrete old new _ apart
          ∙ Assoc.lookup-assign_self ℕ_discrete new f.target conns,
      do_forward-eq-none _ f (
          ap (λ n. Assoc.lookup key_eq f.target (drop_peer peers n)) name
          ∙ drop_peer_self peers f.target some_id),
    )
