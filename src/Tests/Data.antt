-- ===== src/Tests/Data.antt =====
-- Keys, contacts, a table and a transport whose other nodes all give one answer.
use webrtc_dht.Prelude.{
  ℕ, zero, suc, ◌<◌, refl, true, Option, none, some, [], ◌∷◌, ◌++◌, pos, replicate, All, arith,
}
use webrtc_dht.Key.{Key, IsByte, IsKey}
use webrtc_dht.Types.{ok, NetworkNode, ValueMeta}
use webrtc_dht.Routing.{RoutingTable}
use webrtc_dht.Transport.{Transport}

-- The key whose number is that of its last byte.
abbrev pub key : ℕ → Key
key n = replicate 19 0 ++ n ∷ []

zeros_then : (m n : ℕ) → n < 256 → All IsByte (replicate m 0 ++ n ∷ [])
zeros_then zero n h = (h, tt)
zeros_then (suc m) n h = (omega arith, zeros_then m n h)

pub key-IsKey : (n : ℕ) → n < 256 → IsKey (key n)
key-IsKey n h = record { size = refl; bytes = zeros_then 19 n h }

abbrev pub peer : ℕ → NetworkNode
peer n = record { id = key n; address = 127 ∷ 0 ∷ 0 ∷ 1 ∷ []; port = pos 9000; meta = none }

abbrev pub inline_value : ValueMeta
inline_value = record {
  inline = true;
  body = some (1 ∷ 2 ∷ 3 ∷ []);
  blob_ref = [];
  blob_node = key 0;
  size = pos 3;
  mime_type = [];
}

-- The table of the node 1, with the contacts 2 and 3 in one bucket.
abbrev pub table : RoutingTable
table = record {
  node_id = key 1;
  buckets = [] ∷ (peer 2 ∷ peer 3 ∷ []) ∷ replicate 158 [];
  has_ping = true;
}

-- Each call is counted. Whoever is asked knows the contact 2, and has the value.
abbrev pub net : Option ValueMeta → Transport
net v = record {
  World = ℕ;
  ping = λ w n. (suc w, none);
  store = λ w n key value. (suc w, none);
  find_node = λ w n target. (suc w, ok (peer 2 ∷ []));
  find_value = λ w n key. (suc w, ok (v, peer 2 ∷ []));
  fetch_blob = λ w n ref. (suc w, ok (7 ∷ []));
  schedule = λ w ns. (w, ns);
  context_error = λ w. none;
}
