-- ===== src/Webrtc/Listen.antt =====
-- transport/webrtc/webrtc.go, `Listen`: the node is attached to the signaler, which then waits for
-- offers. A signaler is one of four; `N` is the type of a node.
use webrtc_dht.Prelude.{ℕ, Option, none, some, Text, if◌then◌else◌}
use webrtc_dht.Types.{Error, Result, NetworkNode}
use webrtc_dht.Signaling.{SignalMsg}
use webrtc_dht.Signaling.Central
use webrtc_dht.Signaling.Central.{CentralSignaler}
use webrtc_dht.Signaling.Direct
use webrtc_dht.Signaling.Direct.{DirectSignaler}
use webrtc_dht.Signaling.Hybrid
use webrtc_dht.Signaling.Hybrid.{
  DhtSignaler, HybridSignaler, attach, has_node, listen_dht, close_dht,
}

pub data Signaler (N : Type 0) : Type 0 where
  central : CentralSignaler → Signaler N
  direct : DirectSignaler → Signaler N
  by_dht : DhtSignaler N → Signaler N
  hybrid : HybridSignaler N → Signaler N

module _ {N : Type 0} where
  -- A node that was attached before stays.
  attach_unset : DhtSignaler N → N → DhtSignaler N
  attach_unset s node = if has_node s then s else attach s node

  -- The handler may have no node.
  unfoldable pub attach_handler : Option N → Signaler N → Signaler N
  unfolding attach_unset
  attach_handler none s = s
  attach_handler (some node) (central s) = central s
  attach_handler (some node) (direct s) = direct s
  attach_handler (some node) (by_dht s) = by_dht (attach_unset s node)
  attach_handler (some node) (hybrid h) =
      hybrid (record h { dht_sig = attach_unset h.dht_sig node })

  module _ (dial : Text → Result ℕ) (write : ℕ → SignalMsg → Option Error) where
    -- `ListenOffers` of whichever signaler, with the local contact.
    listen_with : Signaler N → NetworkNode → Signaler N × NetworkNode × Option Error
    listen_with (central s) own =
        let (s', e) = Central.listen_offers dial write s own in (central s', own, e)
    listen_with (direct s) own =
        let (s', own', e) = Direct.listen_offers s own in (direct s', own', e)
    listen_with (by_dht s) own = let (s', e) = listen_dht s in (by_dht s', own, e)
    listen_with (hybrid h) own =
        let (h', own', e) = Hybrid.listen_offers h own in (hybrid h', own', e)

    unfoldable pub listen :
        Option N → Signaler N → NetworkNode → Signaler N × NetworkNode × Option Error
    unfolding listen_with
    listen node s own = listen_with (attach_handler node s) own

  -- `Close` of whichever signaler, given what the connection's `Close` and the server's `Shutdown`
  -- return.
  unfoldable pub close_signaler :
      Option Error → Option Error → Signaler N → Signaler N × Option Error
  close_signaler closing shutdown (central s) =
      let (s', e) = Central.close s closing in (central s', e)
  close_signaler closing shutdown (direct s) = (direct s, Direct.close s shutdown)
  close_signaler closing shutdown (by_dht s) = let (s', e) = close_dht s in (by_dht s', e)
  close_signaler closing shutdown (hybrid h) =
      let (h', e) = Hybrid.close h shutdown in (hybrid h', e)
