-- ===== src/Tests.antt =====
-- Inputs at which the theorems are applied: keys, contacts, formats, transports and nodes.
mod Codec
mod Data
mod Key
mod Routing
mod Storage
mod Node
mod Lookup
mod Webrtc
mod Overlap
mod Udp
mod Signaling
mod SignalServer
mod Bench
