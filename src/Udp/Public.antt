-- ===== src/Udp/Public.antt =====
-- transport/udp/udp.go, `resolvePublicAddress`: the address at which others see the node. The library
-- stun, the resolver and the socket are given by what they return, on a world.
use webrtc_dht.Prelude.{◌≡◌, refl, ◌⊎◌, inl, inr, Option, none, some, ℤ, Bytes}
use webrtc_dht.Types.{Error, Result, ok, err, NetworkNode}

-- `stun_message` is `Decode`, and `xor_address` is `GetFrom` of an `XORMappedAddress`.
pub record Stun : Type 1 where
  pub World : Type 0
  pub Address : Type 0
  pub StunMessage : Type 0
  pub resolve_server : World → World × Result Address
  pub build_request : World → World × Result Bytes
  pub write_to : World → Address → Bytes → World × Option Error
  pub read_from : World → World × Result Bytes
  pub stun_message : Bytes → Result StunMessage
  pub xor_address : StunMessage → Result (Bytes × ℤ)

module _ (S : Stun) where
  open S use {
    World, Address, StunMessage, resolve_server, build_request, write_to, read_from, stun_message,
    xor_address,
  }

  -- The steps from the last to the first: each takes what the call before returned.
  public_found : NetworkNode → World → Result (Bytes × ℤ) → World × NetworkNode × Option Error
  public_found local w (err e) = (w, local, some e)
  public_found local w (ok (address, port)) =
      (w, record local { address = address; port = port }, none)

  public_decoded : NetworkNode → World → Result StunMessage → World × NetworkNode × Option Error
  unfolding public_found
  public_decoded local w (err e) = (w, local, some e)
  public_decoded local w (ok msg) = public_found local w (xor_address msg)

  public_read : NetworkNode → World × Result Bytes → World × NetworkNode × Option Error
  unfolding public_decoded
  public_read local (w, err e) = (w, local, some e)
  public_read local (w, ok raw) = public_decoded local w (stun_message raw)

  public_written : NetworkNode → World × Option Error → World × NetworkNode × Option Error
  unfolding public_read
  public_written local (w, some e) = (w, local, some e)
  public_written local (w, none) = public_read local (read_from w)

  public_built : NetworkNode → Address → World × Result Bytes → World × NetworkNode × Option Error
  unfolding public_written
  public_built local server (w, err e) = (w, local, some e)
  public_built local server (w, ok raw) = public_written local (write_to w server raw)

  public_resolved : NetworkNode → World × Result Address → World × NetworkNode × Option Error
  unfolding public_built
  public_resolved local (w, err e) = (w, local, some e)
  public_resolved local (w, ok server) = public_built local server (build_request w)

  unfoldable pub resolve_public_address : World → NetworkNode → World × NetworkNode × Option Error
  unfolding public_resolved
  resolve_public_address w local = public_resolved local (resolve_server w)

  -- What the local node is afterwards: as before, with an error; or, without one, with an address
  -- and a port that a message which was read names.
  abbrev pub IsResolved : NetworkNode → World × NetworkNode × Option Error → Type 0
  IsResolved local r =
      ((e : Error) × (r.2 ≡ some e) × (r.1 ≡ local))
      ⊎ ((raw : Bytes) × (msg : StunMessage) × (address : Bytes) × (port : ℤ) × (stun_message raw
            ≡ ok msg)
          × (xor_address msg ≡ ok (address, port))
          × (r.1 ≡ record local { address = address; port = port })
          × (r.2 ≡ none))

  module _ (local : NetworkNode) where
    public_found-IsResolved :
        (raw : Bytes) (msg : StunMessage) (w : World) (r : Result (Bytes × ℤ))
        → stun_message raw ≡ ok msg
        → xor_address msg ≡ r
        → IsResolved local (public_found local w r)
    unfolding public_found
    public_found-IsResolved raw msg w (err e) p q = inl (e, refl, refl)
    public_found-IsResolved raw msg w (ok (address, port)) p q =
        inr (raw, msg, address, port, p, q, refl, refl)

    public_decoded-IsResolved :
        (raw : Bytes) (w : World) (r : Result StunMessage)
        → stun_message raw ≡ r
        → IsResolved local (public_decoded local w r)
    unfolding public_decoded
    public_decoded-IsResolved raw w (err e) p = inl (e, refl, refl)
    public_decoded-IsResolved raw w (ok msg) p =
        public_found-IsResolved raw msg w (xor_address msg) p refl

    public_read-IsResolved : (r : World × Result Bytes) → IsResolved local (public_read local r)
    unfolding public_read
    public_read-IsResolved (w, err e) = inl (e, refl, refl)
    public_read-IsResolved (w, ok raw) = public_decoded-IsResolved raw w (stun_message raw) refl

    public_written-IsResolved :
        (r : World × Option Error) → IsResolved local (public_written local r)
    unfolding public_written
    public_written-IsResolved (w, some e) = inl (e, refl, refl)
    public_written-IsResolved (w, none) = public_read-IsResolved (read_from w)

    public_built-IsResolved :
        (server : Address) (r : World × Result Bytes)
        → IsResolved local (public_built local server r)
    unfolding public_built
    public_built-IsResolved server (w, err e) = inl (e, refl, refl)
    public_built-IsResolved server (w, ok raw) = public_written-IsResolved (write_to w server raw)

    public_resolved-IsResolved :
        (r : World × Result Address) → IsResolved local (public_resolved local r)
    unfolding public_resolved
    public_resolved-IsResolved (w, err e) = inl (e, refl, refl)
    public_resolved-IsResolved (w, ok server) = public_built-IsResolved server (build_request w)

    -- Whatever the resolver, the library and the socket return, resolvePublicAddress either reports
    -- an error and leaves the local node, or changes nothing of it but the address and the port,
    -- to those that a message which was read names.
    pub resolve_public_address-IsResolved :
        (w : World) → IsResolved local (resolve_public_address w local)
    unfolding resolve_public_address
    resolve_public_address-IsResolved w = public_resolved-IsResolved (resolve_server w)
