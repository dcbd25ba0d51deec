-- ===== src/Json.antt =====
-- What encoding/json makes of a contact (dht/node.go) and of a value (dht/storage.go) that is written
-- and read again: the fields of `omitempty` lose the difference of nil and empty. `wire_ip` is what
-- becomes of a `net.IP`, which is written as a text; texts are taken to be UTF-8, and an address to
-- have a text.
use webrtc_dht.Prelude.{Option, none, some, List, [], ◌∷◌, Bytes, Text}
use webrtc_dht.Types.{Result, ok, err, NetworkNode, ValueMeta}
use webrtc_dht.Storage.Files.{omit_empty}

abbrev pub omit_no_entries : Option (List (Text × Text)) → Option (List (Text × Text))
omit_no_entries none = none
omit_no_entries (some []) = none
omit_no_entries (some (e ∷ es)) = some (e ∷ es)

abbrev pub wire_value : ValueMeta → ValueMeta
wire_value v = record v { body = omit_empty v.body }

abbrev pub wire_payload : Option ValueMeta → Option ValueMeta
wire_payload none = none
wire_payload (some v) = some (wire_value v)

module _ (wire_ip : Bytes → Bytes) where
  abbrev pub wire_node : NetworkNode → NetworkNode
  wire_node n = record n { address = wire_ip n.address; meta = omit_no_entries n.meta }

  abbrev pub wire_sender : Option NetworkNode → Option NetworkNode
  wire_sender none = none
  wire_sender (some n) = some (wire_node n)

  abbrev pub wire_nodes : List NetworkNode → List NetworkNode
  wire_nodes [] = []
  wire_nodes (n ∷ ns) = wire_node n ∷ wire_nodes ns

  -- The results of calls, with what comes of their contacts and values.
  abbrev pub wired_nodes : Result (List NetworkNode) → Result (List NetworkNode)
  wired_nodes (err e) = err e
  wired_nodes (ok ns) = ok (wire_nodes ns)

  abbrev pub wired_value :
      Result (Option ValueMeta × List NetworkNode) → Result (Option ValueMeta × List NetworkNode)
  wired_value (err e) = err e
  wired_value (ok (v, ns)) = ok (wire_payload v, wire_nodes ns)
