-- ===== src/Tests/Key.antt =====
-- The theorems of keys, applied.
use webrtc_dht.Prelude.{◌≡◌, ◌≤◌, ◌+◌, ◌↔◌, arith}
use webrtc_dht.Key.{get_key_distance, get_key_distance-IsMetric}
use webrtc_dht.Key.Hex.{marshal_json, unmarshal_json, unmarshal_json-marshal_json}
use webrtc_dht.Types.{ok}
use webrtc_dht.Tests.Data.{key, key-IsKey}

get_key_distance-IsMetric_example :
    ((get_key_distance (key 5) (key 9) ≡ 0) ↔ (key 5 ≡ key 9))
    × (get_key_distance (key 5) (key 9) ≡ get_key_distance (key 9) (key 5))
    × (get_key_distance (key 5) (key 12)
        ≤ get_key_distance (key 5) (key 9) + get_key_distance (key 9) (key 12))
    × (get_key_distance (key 5) (key 9) ≡ get_key_distance (key 5) (key 12) → key 9 ≡ key 12)
get_key_distance-IsMetric_example =
    get_key_distance-IsMetric (key-IsKey 5 (omega arith)) (key-IsKey 9 (omega arith))
      (key-IsKey 12 (omega arith))

unmarshal_json-marshal_json_example : unmarshal_json (marshal_json (key 171)) ≡ ok (key 171)
unmarshal_json-marshal_json_example =
    unmarshal_json-marshal_json (key 171) (key-IsKey 171 (omega arith))
