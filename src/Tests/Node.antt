-- ===== src/Tests/Node.antt =====
-- The theorems of a node's handlers and of its blobs, applied.
use webrtc_dht.Prelude.{
  ℕ, List, ap, get_or, Text, replicate, ◌≡◌, refl, ◌≢◌, true, false, none, some, [], ◌∷◌, arith,
  codes,
}
use webrtc_dht.Key.{Key}
use webrtc_dht.Types.{ok, NetworkNode, ValueMeta}
use mathlib.Core.List.{Mem, mem-cons, flatten}
use mathlib.Core.Logic.Or
use webrtc_dht.Routing.Closest.{contacts, IsClosest}
use webrtc_dht.Storage
use webrtc_dht.Storage.Memory.{MemoryStorage}
use webrtc_dht.Node.{Node, on_ping, on_store, on_find_node, on_find_value}
use webrtc_dht.Node.Laws.{IsNode, on_find_value-on_store}
use webrtc_dht.Node.Answered.{IsNoted, IsNearest, noted, handlers-IsNoted}
use webrtc_dht.Routing.{k}
use webrtc_dht.Logic.{fetch_blob}
use webrtc_dht.Logic.Blob.{fetch_blob-asks}
use webrtc_dht.Tests.Codec.{formats}
use webrtc_dht.Tests.Data.{key, key-IsKey, peer, table, inline_value, net}
use webrtc_dht.Tests.Routing.{table-IsValid}

abbrev memory : MemoryStorage
memory = record { entries = [] }

abbrev pub node : Node
node = record { self = peer 1; storage = Storage.memory memory; has_transport = true; rt = table }

pub node-IsNode : IsNode node
node-IsNode = record { table = table-IsValid; own = refl }

-- A node whose disk holds one blob, under a reference of 64 bytes.
abbrev pub ref : Text
ref = replicate 64 b'a'

abbrev pub blob_holder : Node
blob_holder = record node {
  storage = Storage.disk (record {
    meta_dir = codes "meta" ∷ [];
    blob_dir = codes "blobs" ∷ [];
    fs = record {
      files = (ref ∷ codes "blobs" ∷ [], 1 ∷ 2 ∷ 3 ∷ []) ∷ [];
      fault = λ p. none;
      cut = λ p. none;
    };
  });
}

nine_is_foreign : key 1 ≢ key 9
nine_is_foreign e = let c : ◌≡◌ {A = ℕ} 1 9 = ap (λ b. get_or b 19 0) e in omega arith

handlers-IsNoted_example :
    let caller = peer 9 in
    let T = net none in
    let pinged = on_ping formats T 0 node (some caller) in
    let stored = on_store formats T 0 node (some caller) (key 4) inline_value in
    let nodes = on_find_node formats T 0 node (some caller) (key 3) in
    let found = on_find_value formats T 0 node (some caller) (key 4) in
    (IsNoted formats T 0 node caller pinged.1
      × (pinged.1.storage ≡ node.storage)
      × (pinged.2 ≡ none))
    × (IsNoted formats T 0 node caller stored.1
        × (stored.1.storage ≡ Storage.put formats node.storage (key 4) inline_value)
        × (stored.2 ≡ none))
    × (IsNoted formats T 0 node caller nodes.1
        × (nodes.1.storage ≡ node.storage)
        × ((ns : List NetworkNode) × (nodes.2 ≡ ok ns)
            × IsClosest (contacts (noted formats T 0 node caller)) ns (key 3) k))
    × (IsNoted formats T 0 node caller found.1
        × (found.1.storage ≡ node.storage)
        × ((v : ValueMeta)
            → Storage.get formats node.storage (key 4) ≡ some v
            → found.2 ≡ ok (some v, []))
        × (Storage.get formats node.storage (key 4) ≡ none
            → IsNearest formats T 0 node caller (key 4) found.2))
handlers-IsNoted_example =
    handlers-IsNoted formats (net none) 0 node (peer 9) (key 4) (key 3) inline_value node-IsNode
      (key-IsKey 9 (omega arith)) nine_is_foreign

on_find_value-on_store_example :
    ((on_find_value formats
        (net none)
        1
        (on_store formats (net none) 0 node (some (peer 9)) (key 4) inline_value).1
        none
        (key 4)).2
      ≡ ok (some inline_value, []))
    × ((j : Key)
        → key 4 ≢ j
        → Storage.get formats
            (on_find_value formats
              (net none)
              1
              (on_store formats (net none) 0 node (some (peer 9)) (key 4) inline_value).1
              none
              j).1.storage
            j
          ≡ Storage.get formats node.storage j)
on_find_value-on_store_example =
    on_find_value-on_store formats (net none) 0 1 node memory (some (peer 9)) none (key 4)
      inline_value refl

two_is_known : Mem (peer 2) (contacts table)
unfolding flatten
two_is_known = mem-cons.1 (Or.inl refl)

abbrev far_value : ValueMeta
far_value = record inline_value { inline = false; blob_ref = codes "ab"; blob_node = key 2 }

a_reference : far_value.blob_ref ≢ []
unfolding codes
a_reference e = cc

fetch_blob-asks_example :
    (m : NetworkNode) × (m.id ≡ key 2)
    × (fetch_blob formats (net none) 0 node (some far_value)
        ≡ (net none).fetch_blob 0 m far_value.blob_ref)
unfolding Storage.as_blob_store
fetch_blob-asks_example =
    fetch_blob-asks formats (net none) 0 node far_value (peer 2) node-IsNode
      (key-IsKey 2 (omega arith)) two_is_known refl refl a_reference refl
