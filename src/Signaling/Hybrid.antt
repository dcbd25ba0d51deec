-- ===== src/Signaling/Hybrid.antt =====
-- transport/webrtc/signaling.go: the state of `DHTSignaler`, and `HybridSignaler`, which calls a
-- node directly if its contact has a port for that, and by way of the hash table otherwise.
-- `N` is the type of a node to which the signaler is attached.
pub mod Offers
use webrtc_dht.Prelude.{ℕ, Bool, true, false, Option, none, some, [], Text, Bytes, ℤ, ite}
use webrtc_dht.Key.{key_eq}
use webrtc_dht.Types.{Error, Result, NetworkNode}
use webrtc_dht.Signaling.{SignalPayload}
use webrtc_dht.Signaling.Direct
use webrtc_dht.Signaling.Direct.{DirectSignaler, new_direct_signaler, Response, sig_port}
use webrtc_dht.Signaling.Dht
use webrtc_dht.Signaling.Dht.{Dht, OfferEntry}

pub record DhtSignaler (N : Type 0) : Type 0 where
  pub node : Option N
  pub has_cancel : Bool
  pub cancelled : Bool

pub record HybridSignaler (N : Type 0) : Type 0 where
  pub direct : DirectSignaler
  pub dht_sig : DhtSignaler N

module _ {N : Type 0} where
  unfoldable pub new_dht_signaler : DhtSignaler N
  new_dht_signaler = record { node = none; has_cancel = false; cancelled = false }

  unfoldable pub attach : DhtSignaler N → N → DhtSignaler N
  attach s node = record s { node = some node }

  -- The loop that it starts is `poll_round`, at each tick until the signaler is closed.
  unfoldable pub listen_dht : DhtSignaler N → DhtSignaler N × Option Error
  listen_dht s = (record s { has_cancel = true; cancelled = false }, none)

  unfoldable pub close_dht : DhtSignaler N → DhtSignaler N × Option Error
  close_dht s = (record s { cancelled = s.has_cancel }, none)

  unfoldable pub has_node : DhtSignaler N → Bool
  has_node s = elim s.node [ none ↦ false | some node ↦ true ]

  unfoldable pub new_hybrid_signaler : ℤ → HybridSignaler N
  new_hybrid_signaler port = record {
    direct = new_direct_signaler port;
    dht_sig = new_dht_signaler;
  }

  listened :
      HybridSignaler N
      → DirectSignaler × NetworkNode × Option Error
      → HybridSignaler N × NetworkNode × Option Error
  listened h (direct, own, some e) = (record h { direct = direct }, own, some e)
  listened h (direct, own, none) =
      let (dht_sig, failed) = listen_dht h.dht_sig in
      (record { direct = direct; dht_sig = dht_sig }, own, failed)

  -- The new signaler, and the local contact, to which the port is added.
  unfoldable pub listen_offers :
      HybridSignaler N → NetworkNode → HybridSignaler N × NetworkNode × Option Error
  unfolding listened
  listen_offers h own = listened h (Direct.listen_offers h.direct own)

  -- The first error counts; `shutdown` is what the server's `Shutdown` returns.
  unfoldable pub close : HybridSignaler N → Option Error → HybridSignaler N × Option Error
  close h shutdown =
      let (dht_sig, failed) = close_dht h.dht_sig in
      (
        record h { dht_sig = dht_sig },
        elim (Direct.close h.direct shutdown) [ some e ↦ some e | none ↦ failed ],
      )

  -- The arguments before the signaler are those of the two other signalers.
  unfoldable pub send_offer :
      (D : Dht)
      → (D.World → Bytes → Text → Bytes → D.World × Result Response)
      → (SignalPayload → Bytes)
      → (Bytes → Bytes)
      → (OfferEntry → Bytes)
      → (Bytes → Result OfferEntry)
      → (D.World → D.World × Option Error)
      → ℕ
      → ℕ
      → HybridSignaler N
      → NetworkNode
      → SignalPayload
      → D.World
      → Option (D.World × Result Text)
  send_offer D post encode sha1 encode_entry decode_entry pause fuel now h target payload w =
      ite (key_eq (sig_port target) [])
        (Dht.send_offer D sha1 encode_entry decode_entry pause fuel (has_node h.dht_sig) now
          target.id payload w)
        (some (Direct.send_offer post encode w target payload))
