-- ===== src/Signaling.antt =====
-- transport/webrtc/signaling.go: how two nodes exchange an offer and an answer before they connect.
-- This file has the data that the signalers share, and `nodeIDFromHex`.
pub mod Ids
pub mod Central
pub mod Direct
pub mod Dht
pub mod Hybrid
use webrtc_dht.Prelude.{
  ℕ, zero, suc, ◌+◌, ◌*◌, ◌-◌, ◌≤◌, ◌<◌, ◌&&◌, ◌||◌, Bool, Option, none, some, List, [], ◌∷◌, ltb,
  leb, ◌==◌, if◌then◌else◌, replicate, Text,
}
use webrtc_dht.Key.{NodeId}
use webrtc_dht.Key.Hex.{digit_value}

pub record SignalPayload : Type 0 where
  pub caller_id : NodeId
  pub sdp : Text

-- `wsSignalMsg`, and `signalMsg` of cmd/signal_server/main.go. The field `Type` is `kind`.
pub record SignalMsg : Type 0 where
  pub kind : Text
  pub id : Text
  pub caller_id : Text
  pub callee_id : Text
  pub sdp : Text

-- The space that a scanner skips: not a line feed, at which it stops.
is_space : ℕ → Bool
is_space c = c == 9 || c == 11 || c == 12 || c == 13 || c == 32

one_digit : Option ℕ → ℕ
one_digit none = 0
one_digit (some h) = h

two_digits : Option ℕ → Option ℕ → ℕ
two_digits none l = 0
two_digits (some h) none = h
two_digits (some h) (some l) = h * 16 + l

-- `fmt.Sscanf` of two bytes by `%02x`, into a byte that is zero before.
scan_byte : ℕ → ℕ → ℕ
unfolding is_space one_digit two_digits
scan_byte a b =
    if is_space a then one_digit (digit_value b) else two_digits (digit_value a) (digit_value b)

-- The loop of `nodeIDFromHex`, with the number of bytes of the identifier that are left.
scan_bytes : ℕ → Text → NodeId
unfolding scan_byte
scan_bytes zero h = []
scan_bytes (suc n) [] = 0 ∷ scan_bytes n []
scan_bytes (suc n) (a ∷ []) = 0 ∷ scan_bytes n []
scan_bytes (suc n) (a ∷ b ∷ h) = scan_byte a b ∷ scan_bytes n h

unfoldable pub node_id_from_hex : Text → NodeId
unfolding scan_bytes
node_id_from_hex h = scan_bytes 20 h
