-- ===== src/Tests/Webrtc.antt =====
-- The theorems of the transport over WebRTC, applied.
use webrtc_dht.Prelude.{
  List, All, length, ◌+◌, ◌*◌, ◌≤◌, ◌<◌, ℕ, suc, ◌≡◌, refl, ap, ◌≢◌, ◌⊎◌, inl, inr, Bool, true,
  false, not, ◌&&◌, ◌||◌, ◌==◌, ℕ_discrete, none, some, [], ◌∷◌, replicate, arith, Bytes, Text,
  codes,
}
use webrtc_dht.Types.{Result, ok}
use webrtc_dht.Node.{on_fetch_blob}
use webrtc_dht.Udp.{rpc_ping, handle_request}
use webrtc_dht.Webrtc.Control.{PeerConn, rpc_fetch_blob, rpc_message, rpc_request, on_rpc_request}
use webrtc_dht.Webrtc.Control.Same.{IsSame, to_message, on_rpc_request-handle_request}
use webrtc_dht.Webrtc.Control.Fetch.{IsFetched, fetch_msg-IsFetched}
use webrtc_dht.Webrtc.Peers.{Pion}
use webrtc_dht.Webrtc.Peers.Leaks.{IsPion}
use webrtc_dht.Tests.Codec.{formats}
use webrtc_dht.Tests.Data.{peer, net}
use webrtc_dht.Tests.Node.{node, ref, blob_holder}
use webrtc_dht.Prelude.Assoc
use webrtc_dht.Key.{key_eq}
use webrtc_dht.Webrtc.{BlobPending, blob_chunk_size, send_blob_chunked}
use webrtc_dht.Webrtc.Sizes.{log, IsFrame, send_blob_chunked-IsFrame}
use webrtc_dht.Webrtc.Frames.{deliver, IsReceived, send_blob_chunked-on_blob_msg}

abbrev req_id : Text
req_id = replicate 32 b'a'

abbrev blob : Bytes
blob = 5 ∷ 6 ∷ 7 ∷ []

abbrev waiting_peer : BlobPending
waiting_peer = (req_id, record { buf = []; ch = none }) ∷ []

is_waiting : Assoc.lookup key_eq req_id waiting_peer ≡ some (record { buf = []; ch = none })
unfolding Assoc.lookup key_eq
is_waiting = refl

has_bytes : blob ≢ []
has_bytes e = cc

send_blob_chunked-on_blob_msg_example :
    (pending' : BlobPending) × (send_blob_chunked deliver req_id blob 4 waiting_peer
      ≡ some (pending', none))
    × IsReceived req_id blob refl waiting_peer pending'
send_blob_chunked-on_blob_msg_example =
    send_blob_chunked-on_blob_msg req_id blob refl 4 waiting_peer (omega arith) has_bytes is_waiting

-- A library that keeps which connections are open, and the number of the next one; its connections
-- never fail.
abbrev pub pion : Pion
pion = record {
  World = (ℕ → Bool) × ℕ;
  new_pc = λ w. (((λ d. w.1 == d || w.0 d), suc w.1), ok w.1);
  create_data_channel = λ w c label. (w, none);
  create_offer = λ w c. (w, ok []);
  create_answer = λ w c. (w, ok []);
  set_local = λ w c sdp. (w, none);
  local_sdp = λ w c. [];
  set_remote_offer = λ w c sdp. (w, none);
  set_remote_answer = λ w c sdp. (w, none);
  wait_control = λ w c. (w, true);
  close_pc = λ w c. (((λ d. not (c == d) && w.0 d), w.1), none);
  send_offer = λ w target payload. (w, ok []);
}

pub opened :
    (w : pion.World) (d : ℕ)
    → (w.1 == d || w.0 d) ≡ true
    → (◌≡◌ {A = Result ℕ} (ok w.1) (ok d)) ⊎ (w.0 d ≡ true)
opened w d h = elim (ℕ_discrete w.1 d) [ yes e ↦ inl (ap ok e) | no e ↦ inr (ground arith) ]

pub closed : (w : pion.World) (c d : ℕ) → (not (c == d) && w.0 d) ≡ true → (c ≢ d) × (w.0 d ≡ true)
closed w c d h = ((λ e. ground arith), ground arith)

abbrev pub laws : IsPion pion
laws = record {
  is_open = λ w d. w.0 d;
  new_pc-open = opened;
  close_pc-open = closed;
  create_data_channel-open = λ w c label d h. h;
  create_offer-open = λ w c d h. h;
  create_answer-open = λ w c d h. h;
  set_local-open = λ w c sdp d h. h;
  set_remote_offer-open = λ w c sdp d h. h;
  set_remote_answer-open = λ w c sdp d h. h;
  wait_control-open = λ w c d h. h;
  send_offer-open = λ w target payload d h. h;
}

abbrev pub unused : pion.World
unused = ((λ d. false), 0)

pub none_open : (d : ℕ) → false ≢ true
none_open d e = cc

ping-ne : rpc_ping ≢ rpc_fetch_blob
unfolding codes
ping-ne e = cc

on_rpc_request-handle_request_example :
    IsSame
      (on_rpc_request formats
        (net none)
        (peer 1)
        0
        (some node)
        true
        (rpc_request (peer 9) req_id (rpc_message rpc_ping)))
      (handle_request formats
        (net none)
        (peer 1)
        0
        (some node)
        (to_message (rpc_request (peer 9) req_id (rpc_message rpc_ping))))
on_rpc_request-handle_request_example =
    on_rpc_request-handle_request formats (net none) (peer 1) 0
      (rpc_request (peer 9) req_id (rpc_message rpc_ping)) (some node) true ping-ne

abbrev connected : PeerConn
connected = record {
  pc = 3;
  control_ready = true;
  blob_ready = true;
  rpc_pending = [];
  blob_pending = [];
}

fetch_msg-IsFetched_example :
    IsFetched formats
      (net none)
      (peer 9)
      (peer 1)
      0
      blob_holder
      connected
      connected
      req_id
      ref
      (on_fetch_blob formats (net none) blob_holder (some (peer 9)) ref)
fetch_msg-IsFetched_example =
    fetch_msg-IsFetched formats (net none) (peer 9) (peer 1) 0 blob_holder connected connected
      req_id ref refl refl

send_blob_chunked-IsFrame_example :
    (frames : List Bytes) × (send_blob_chunked log req_id blob 4 [] ≡ some (frames, none))
    × All IsFrame frames
    × (length blob ≤ length frames * blob_chunk_size)
    × (length frames * blob_chunk_size < length blob + blob_chunk_size)
send_blob_chunked-IsFrame_example = send_blob_chunked-IsFrame req_id blob 4 (omega arith)
