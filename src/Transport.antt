-- ===== src/Transport.antt =====
-- dht/transport.go: what a node asks of its transport. A call may change the world, in which the
-- other nodes are; `schedule` is the order in which goroutines that were started together get
-- hold of their mutex, and `context_error` is `ctx.Err()`.
use webrtc_dht.Prelude.{Option, List, Bytes, Text}
use webrtc_dht.Key.{Key, NodeId}
use webrtc_dht.Types.{Error, Result, NetworkNode, ValueMeta}

pub record Transport : Type 1 where
  pub World : Type 0
  pub ping : World → NetworkNode → World × Option Error
  pub store : World → NetworkNode → Key → ValueMeta → World × Option Error
  pub find_node : World → NetworkNode → NodeId → World × Result (List NetworkNode)
  pub find_value : World → NetworkNode → Key → World × Result (Option ValueMeta × List NetworkNode)
  pub fetch_blob : World → NetworkNode → Text → World × Result Bytes
  pub schedule : World → List NetworkNode → World × List NetworkNode
  pub context_error : World → Option Error
