-- ===== src/Lib.antt =====
-- The verification of webrtc-dht, a Kademlia hash table with blobs, in Go.
--
-- A node (dht/node.go) has a routing table of contacts (dht/routing_table.go), a storage for values
-- (dht/memory_storage.go, dht/disk_storage.go) and a transport (dht/transport.go) that carries calls
-- between nodes. Identifiers and keys are 160-bit numbers with the exclusive or as their distance
-- (dht/key.go). Each call that comes in notes its caller in the table; the operations of a node
-- (dht/logic.go) search the network in rounds, and store or fetch values at the nodes they find.
--
-- The files:
--   Key: dht/key.go; Key/Value is `DHTKey`, Key/Distance `GetKeyDistance`, Key/Hex the form in
--     JSON, Key/Make the keys that are generated or hashed.
--   Types: errors, results, `NetworkNode` and `ValueMeta`.
--   Routing: dht/routing_table.go. `Add` gives up its lock while it pings, so it is `add_locked` up
--     to the ping and `add_resume` after it; `add` is both with nothing in between. Routing/Cases
--     has a rule for their branches, Routing/Bucket and Routing/Invariant what a table keeps,
--     Routing/Add and Routing/Effect what a call does, Routing/Closest `FindClosest`, and
--     Routing/Concurrent calls in any interleaving.
--   Storage: dht/storage.go; Storage/Memory is dht/memory_storage.go, Storage/Disk is
--     dht/disk_storage.go over the files of Storage/Files. Storage/Laws is about values,
--     Storage/Blobs and Storage/Escape about blobs, Storage/Names about the names of files.
--   Transport: dht/transport.go, a record of the operations of a transport on an abstract world.
--   Json: what the fields of a contact and of a value are once they are written and read in JSON.
--   Node: dht/node.go; Node/Laws and Node/Answered are about its handlers, Node/Made about a new
--     node.
--   Lookup: `iterativeSearch` of dht/logic.go; Lookup/Select, Lookup/Rounds and Lookup/Outcome
--     follow one round and the loop, Lookup/Universe and Lookup/Termination show that it ends;
--     Lookup/Answered is for the transports.
--   Logic: the operations of dht/logic.go; Logic/Store and Logic/Blob are about them.
--   Webrtc: transport/webrtc/webrtc.go, `sendBlobChunked` and `onBlobMsg`; Webrtc/Frames joins
--     them. Webrtc/Control has the calls on the control channel, `onControlMsg`, `sendRPC` and
--     `FetchBlob`; Webrtc/Control/Same sets them beside those of Udp, Webrtc/Control/Answers
--     follows a call to its result and Webrtc/Control/Fetch a request for a blob. Webrtc/Peers has
--     `connect`, `getPeer`, `handleIncomingOffer` and `Close` over the operations of the library
--     pion; Webrtc/Peers/Leaks and Webrtc/Peers/Closing are about the connections they leave open.
--     Webrtc/Peers/Overlap has the same operations as tasks that run at once, a call of the library
--     or an access to the map at a time: Overlap/Alone sets a task beside the operation,
--     Overlap/Kept, Overlap/Moved, Overlap/Well and Overlap/Closed follow the connections of tasks
--     for different peers, Overlap/Lost is about two for the same. Webrtc/Calls has the calls of a
--     transport from the choice of a connection on, which Webrtc/Search gives to a node as its
--     transport. Webrtc/Listen is `Listen`, with any of the signalers; Webrtc/Sizes counts the
--     frames of a blob.
--   Udp: transport/udp/udp.go, `handleMessage`, `sendReq` and the calls that use it. Udp/Calls
--     joins both ends of a call, Udp/Replies matches replies with the requests that wait. Udp/Blob
--     is `handleBlobConn` and `FetchBlob`, which Udp/Blob/Transfer joins. Udp/Server is `Listen`,
--     what its loop does with a datagram, and `Close`; Udp/Server/Datagrams is about its answer.
--     Udp/Client has the calls as the transport of a node, over which Udp/Client/Search runs a
--     search; Udp/Public is `resolvePublicAddress`.
--   Signaling: transport/webrtc/signaling.go, the data of the signalers and `nodeIDFromHex`, which
--     is treated in Signaling/Ids. Signaling/Central is `CentralSignaler`, with the answers of
--     calls in Signaling/Central/Answers; Signaling/Direct is `DirectSignaler`, with
--     Signaling/Direct/Offers; Signaling/Dht is `DHTSignaler`, with Signaling/Dht/Relay for the
--     caller and Signaling/Dht/Served for both nodes; Signaling/Hybrid is `HybridSignaler`, with
--     Signaling/Hybrid/Offers.
--   SignalServer: cmd/signal_server/main.go. SignalServer/Registry is about its map of peers,
--     SignalServer/Exchange follows an offer from a `CentralSignaler` through it and back.
--   Bench: the programs of cmd/ that measure. Bench/Pairs and Bench/Coordinator are
--     cmd/bench_signaling/main.go: the roles of a pair, which Bench/Pairs/Relayed joins over the
--     hash table, and the coordinator, with Bench/Coordinator/Rotation for the order in which it
--     tries the agents, Bench/Coordinator/Recorded for its results and Bench/Coordinator/Csv for
--     `parseCSV`. Bench/Blobs is cmd/bench_transport/main.go, whose blobs Bench/Blobs/Arrival
--     follows; Bench/Nodes is cmd/bench_dht/main.go, Bench/Raw cmd/pion_raw_bench/main.go, and
--     Bench/Ids the reading of identifiers that two of them share. Bench/Stats has `medianDur` of
--     the second and `median` of cmd/webrtc_blob_local_test/main.go, which sorts by swaps:
--     Bench/Stats/Insertion says what the swaps do, Bench/Stats/Median compares the two.
--   Prelude: what the parts share. Tests: inputs at which the theorems are applied.
--
-- State is passed explicitly: a method takes the state and returns the new one, and where it calls
-- the transport it also takes and returns the world. A mutex makes a method one step; where a method
-- gives its lock up it is several. Goroutines that a round starts are run one after another, in an
-- order that the transport's `schedule` chooses. The map `visited` is a list, the `sync.Mutex` of a
-- round is the order in which answers are received.
--
-- The loop of a search runs on fuel. Each round asks a node that no round before has asked, and there
-- are 2 ^ 160 identifiers, so more fuel than that is enough. The loop that sends a blob advances by at
-- least a byte, so more fuel than its length is enough.
--
-- A call that waits without a lock is split at the wait: `SendOffer` of `CentralSignaler` is
-- `begin_offer` and `end_offer`, the calls over WebRTC are `begin_rpc`, `end_rpc`, `begin_fetch` and
-- `end_fetch`. A signaler that waits for an answer in the hash table runs on fuel, which stands for the
-- patience of its context; one look is enough where the answer is there.
--
-- What lies outside is a parameter: the encoding of a document in JSON as text, SHA-256 (the record
-- `Formats`), SHA-1, the transport, the library pion (the record `Pion`, with what it does in
-- `IsPion`), the hash table that a signaler uses (the record `Dht`, which loses nothing where
-- `IsReliable` is assumed), HTTP and websockets, and what the context answers. Random bytes are
-- given as well; logging and the system's clock are not modelled, and neither are the sockets under
-- a message, its text in JSON (only the fields that are lost by it), the goroutines of several UDP
-- messages at once, what the service answers that finds a public address, and TLS. The
-- programs that demonstrate only call these parts; of those that measure, the start of processes,
-- their HTTP servers, the set-up of connections and the statistics in floating point are left out.
-- Integers of values are stored and printed only, so they need no bounds; the distance is a number
-- below 2 ^ 160.
pub mod Prelude
pub mod Json
pub mod Key
pub mod Types
pub mod Routing
pub mod Storage
pub mod Transport
pub mod Node
pub mod Lookup
pub mod Logic
pub mod Webrtc
pub mod Udp
pub mod Signaling
pub mod SignalServer
pub mod Bench
mod Tests
