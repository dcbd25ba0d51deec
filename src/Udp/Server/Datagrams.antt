-- ===== src/Udp/Server/Datagrams.antt =====
-- transport/udp/udp.go: whatever datagrams come.
use webrtc_dht.Prelude.{
  ◌≡◌, refl, Bool-cases, inl, inr, Bool, true, false, Option, none, some, List, if◌then◌else◌,
  Bytes,
}
use webrtc_dht.Types.{Error, Result, ok, err, is_not_found, NetworkNode, ValueMeta}
use webrtc_dht.Node.{Node, on_store}
use webrtc_dht.Node.Laws.{IsNode, IsCaller}
use webrtc_dht.Storage.Files.{Formats}
use webrtc_dht.Transport.{Transport}
use webrtc_dht.Udp.{
  Message, Pending, handle_request, response, with_error, with_nodes, with_value, store_payload,
}
use webrtc_dht.Udp.Calls.{dispatch-IsNode, dispatch_cases}
use webrtc_dht.Udp.Server.{handle_message, message_read, on_datagram}

-- A node that is not set, or is correct.
abbrev pub IsHandler : Option Node → Type 0
IsHandler none = Unit
IsHandler (some node) = IsNode node

module _ (F : Formats) (T : Transport) (own : NetworkNode) where
  -- The answer of this node to a message: no request itself, with the identifier of that.
  pub record IsResponse (m r : Message) : Type 0 where
    pub no_request : r.is_req ≡ false
    pub id : r.req_id ≡ m.req_id
    pub kind : r.kind ≡ m.kind
    pub from : r.sender ≡ some own

  with_error-IsResponse :
      (m : Message) (e : Option Error) → IsResponse m (with_error (response own m) e)
  with_error-IsResponse m none = record { no_request = refl; id = refl; kind = refl; from = refl }
  with_error-IsResponse m (some e) = record {
    no_request = refl;
    id = refl;
    kind = refl;
    from = refl;
  }

  with_nodes-IsResponse :
      (m : Message) (r : Result (List NetworkNode)) → IsResponse m (with_nodes (response own m) r)
  with_nodes-IsResponse m (err e) = record {
    no_request = refl;
    id = refl;
    kind = refl;
    from = refl;
  }
  with_nodes-IsResponse m (ok ns) = record {
    no_request = refl;
    id = refl;
    kind = refl;
    from = refl;
  }

  with_value-IsResponse :
      (m : Message) (r : Result (Option ValueMeta × List NetworkNode))
      → IsResponse m (with_value (response own m) r)
  with_value-IsResponse m (err e) = elim (Bool-cases (is_not_found e)) [
    | inl f ↦ rw f (record { no_request = refl; id = refl; kind = refl; from = refl })
    | inr f ↦ rw f (record { no_request = refl; id = refl; kind = refl; from = refl })
  ]
  with_value-IsResponse m (ok (v, ns)) = record {
    no_request = refl;
    id = refl;
    kind = refl;
    from = refl;
  }

  store_payload-IsResponse :
      (w : T.World) (node : Node) (m : Message) (payload : Option ValueMeta)
      → IsResponse m (store_payload F T own w node m payload).2
  unfolding store_payload
  store_payload-IsResponse w node m none = record {
    no_request = refl;
    id = refl;
    kind = refl;
    from = refl;
  }
  store_payload-IsResponse w node m (some value) =
      with_error-IsResponse m (on_store F T w node m.sender m.key value).2

  handle_request-IsResponse :
      (w : T.World) (node : Option Node) (m : Message)
      → IsCaller m.sender
      → IsHandler node
      → IsHandler (handle_request F T own w node m).1
        × IsResponse m (handle_request F T own w node m).2
  unfolding handle_request
  handle_request-IsResponse w none m caller h =
      (tt, record { no_request = refl; id = refl; kind = refl; from = refl })
  handle_request-IsResponse w (some node) m caller h = (
    dispatch-IsNode F T own w node m caller h,
    dispatch_cases F T own (λ r. IsResponse m r.2) w node m (with_error-IsResponse m _)
        (store_payload-IsResponse w node m m.payload) (with_nodes-IsResponse m _)
        (with_value-IsResponse m _)
        (record { no_request = refl; id = refl; kind = refl; from = refl }),
  )

  module _ (is_stun : Bytes → Bool) (encode : Message → Bytes)
      (decode : Bytes → Result Message) where
    -- No answer, or one to a datagram that holds a request.
    abbrev pub IsAnswer : Bytes → Option Bytes → Type 0
    IsAnswer d none = Unit
    IsAnswer d (some r) =
        (is_stun d ≡ false)
        × (m : Message) × (decode d ≡ ok m)
        × (m.is_req ≡ true)
        × ((resp : Message) × (r ≡ encode resp) × IsResponse m resp)

    abbrev IsServed : Bytes → T.World × Option Node × Pending × Option Bytes → Type 0
    IsServed d r = IsHandler r.1 × IsAnswer d r.3

    module _ (callers : (d : Bytes) (m : Message) → decode d ≡ ok m → IsCaller m.sender) where
      either :
          (d : Bytes) (b : Bool) (x y : T.World × Option Node × Pending × Option Bytes)
          → (b ≡ true → IsServed d x)
          → (b ≡ false → IsServed d y)
          → IsServed d (if b then x else y)
      either d true x y p q = p refl
      either d false x y p q = q refl

      handle_message-IsServed :
          (w : T.World) (handler : Option Node) (pending : Pending) (d : Bytes) (m : Message)
          → decode d ≡ ok m
          → is_stun d ≡ false
          → IsHandler handler
          → IsServed d (handle_message F T own encode w handler pending m)
      unfolding handle_message
      handle_message-IsServed w handler pending d m is plain h =
          let (kept, answer) = handle_request-IsResponse w handler m (callers d m is) h in
          either d m.is_req _ _ (λ e. (kept, (plain, m, is, e, (_, refl, answer)))) (λ e. (h, tt))

      message_read-IsServed :
          (w : T.World) (handler : Option Node) (pending : Pending) (d : Bytes) (r : Result Message)
          → decode d ≡ r
          → is_stun d ≡ false
          → IsHandler handler
          → IsServed d (message_read F T own is_stun encode decode w handler pending r)
      unfolding message_read
      message_read-IsServed w handler pending d (err e) is plain h = (h, tt)
      message_read-IsServed w handler pending d (ok m) is plain h =
          handle_message-IsServed w handler pending d m is plain h

      -- Whatever datagram comes, one whole run leaves the node correct; and the datagram is left
      -- without an answer, or is a request and gets one, which bears its identifier and its type.
      on_datagram-IsServed :
          (w : T.World) (handler : Option Node) (pending : Pending) (d : Bytes)
          → IsHandler handler
          → IsServed d (on_datagram F T own is_stun encode decode w handler pending d)
      unfolding on_datagram
      on_datagram-IsServed w handler pending d h =
          either d (is_stun d) _ _ (λ e. (h, tt))
            (λ e. message_read-IsServed w handler pending d (decode d) refl e h)
