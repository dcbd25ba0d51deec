-- ===== src/Logic.antt =====
-- dht/logic.go: what a node does for its own program, over the search of Lookup.
-- A search takes fuel, and `none` means that it ran out; see `iterative_search-IsDone`.
pub mod Blob
pub mod Store
use webrtc_dht.Prelude.{
  ℕ, zero, suc, Bool, true, false, Option, none, some, List, [], ◌∷◌, ite, ltb, if◌then◌else◌,
  length, take, ℤ, pos, Text, Bytes, codes,
}
use mathlib.Core.Option
use webrtc_dht.Key.{Key, NodeId, key_eq}
use webrtc_dht.Key.Hex.{hex_encode}
use webrtc_dht.Prelude.{◌++◌}
use webrtc_dht.Types.{Error, message, wrapped, Result, ok, err, NetworkNode, ValueMeta}
use webrtc_dht.Routing.{find_closest}
use webrtc_dht.Node.{Node, add_peer}
use webrtc_dht.Storage
use webrtc_dht.Storage.{Storage, as_blob_store}
use webrtc_dht.Storage.Disk
use webrtc_dht.Storage.Disk.{DiskStorage}
use webrtc_dht.Storage.Files.{Formats}
use webrtc_dht.Transport.{Transport}
use webrtc_dht.Lookup.{SearchResult, Done, iterative_search}

-- The constant `StoreK`.
abbrev pub store_k : ℕ
store_k = 3

-- The nodes that are given the value.
unfoldable pub store_targets : List NetworkNode → List NetworkNode
store_targets ns = if ltb store_k (length ns) then take store_k ns else ns

module _ (F : Formats) (T : Transport) where
  open T use {World}

  add_all : World → Node → List NetworkNode → World × Node
  add_all w node [] = (w, node)
  add_all w node (n ∷ ns) = let (w', node') = add_peer F T w node n in add_all w' node' ns

  unfoldable pub lookup_node : ℕ → World → Node → NodeId → Option (Done F T)
  lookup_node fuel w node target = iterative_search F T fuel w node target false

  bootstrap_search : ℕ → World × Node → NodeId → Option (World × Node × Option Error)
  bootstrap_search fuel (w, node) own =
      Option.map (λ d. (d.world, d.node, d.result.error)) (lookup_node fuel w node own)

  unfoldable pub bootstrap :
      ℕ → World → Node → List NetworkNode → Option (World × Node × Option Error)
  unfolding add_all bootstrap_search
  bootstrap fuel w node [] = some (w, node, some (message (codes "no bootstrap nodes provided")))
  bootstrap fuel w node (n ∷ ns) = bootstrap_search fuel (add_all w node (n ∷ ns)) node.self.id

  -- The calls of `Store`, whose errors are dropped, in the order in which they take effect.
  unfoldable pub store_all : World → List NetworkNode → Key → ValueMeta → World
  store_all w [] key value = w
  store_all w (n ∷ ns) key value = store_all (T.store w n key value).0 ns key value

  store_found :
      Key → ValueMeta → Done F T → Option Error → List NetworkNode → World × Node × Option Error
  store_found key value d (some e) [] = (d.world, d.node, some e)
  store_found key value d e ns = (
    store_all (T.schedule d.world (store_targets ns)).0 (T.schedule d.world (store_targets ns)).1
        key value,
    d.node,
    none,
  )

  unfoldable pub store_value :
      ℕ → World → Node → Key → ValueMeta → Option (World × Node × Option Error)
  unfolding store_found
  store_value fuel w node key value =
      Option.map (λ d. store_found key value d d.result.error d.result.nodes)
        (lookup_node fuel w node key)

  unfoldable pub blob_meta : Node → Text → Bytes → Text → ValueMeta
  blob_meta node ref blob mime_type = record {
    inline = false;
    body = none;
    blob_ref = ref;
    blob_node = node.self.id;
    size = pos (length blob);
    mime_type = mime_type;
  }

  store_ref :
      ℕ
      → World
      → Node
      → Key
      → Bytes
      → Text
      → DiskStorage × Result Text
      → Option (World × Node × Option Error)
  store_ref fuel w node key blob mime_type (s, err e) =
      some (
        w,
        record node { storage = Storage.disk s },
        some (wrapped (codes "store blob locally: ") e),
      )
  store_ref fuel w node key blob mime_type (s, ok ref) =
      let node' = record node { storage = Storage.disk s } in
      store_value fuel w node' key (blob_meta node' ref blob mime_type)

  unfoldable pub store_blob :
      ℕ → World → Node → Key → Bytes → Text → Option (World × Node × Option Error)
  unfolding store_ref
  store_blob fuel w node key blob mime_type = elim (as_blob_store node.storage) [
    | none ↦
        some
          (w, node, some (message (codes "storage does not implement BlobStore; use DiskStorage")))
    | some s ↦ store_ref fuel w node key blob mime_type (Disk.put_blob F s blob)
  ]

  -- A pointer to a value, and an error.
  unfoldable pub find_value :
      ℕ → World → Node → Key → Option (World × Node × Option ValueMeta × Option Error)
  find_value fuel w node key = elim (Storage.get F node.storage key) [
    | some value ↦ some (w, node, some value, none)
    | none ↦
        Option.map (λ d. (d.world, d.node, d.result.value, d.result.error))
          (iterative_search F T fuel w node key true)
  ]

  no_blob_node : NodeId → Error
  no_blob_node id =
      message (codes "blob node " ++ hex_encode id ++ codes " not found in routing table")

  -- The call of the node that has the blob, if it is the nearest of the table.
  ask_blob_node : World → NodeId → Text → List NetworkNode → World × Result Bytes
  ask_blob_node w id ref [] = (w, err (no_blob_node id))
  ask_blob_node w id ref (peer ∷ ps) =
      ite (key_eq peer.id id) (T.fetch_blob w peer ref) (w, err (no_blob_node id))

  local_blob : Option DiskStorage → Text → Result Bytes
  local_blob none ref = err (message [])
  local_blob (some s) ref = Disk.get_blob F s ref

  fetch_ref : World → Node → NodeId → Text → World × Result Bytes
  unfolding no_blob_node ask_blob_node local_blob
  fetch_ref w node id [] = (w, err (message (codes "blob ref is empty")))
  fetch_ref w node id (c ∷ cs) = elim (local_blob (as_blob_store node.storage) (c ∷ cs)) [
    | ok blob ↦ (w, ok blob)
    | err e ↦ ask_blob_node w id (c ∷ cs) (find_closest node.rt id 1)
  ]

  -- A nil slice is an empty one here.
  bytes_of : Option Bytes → Bytes
  bytes_of none = []
  bytes_of (some b) = b

  unfoldable pub fetch_blob : World → Node → Option ValueMeta → World × Result Bytes
  unfolding bytes_of fetch_ref
  fetch_blob w node none = (w, err (message (codes "meta is nil")))
  fetch_blob w node (some meta) =
      if meta.inline
      then (w, ok (bytes_of meta.body))
      else fetch_ref w node meta.blob_node meta.blob_ref
