-- ===== src/Proxy.antt =====
-- proxy/main.c: D-Bus connections multiplexed over one connection, packet by packet.
pub mod Header
pub mod Socket
pub mod Demux
pub mod Framing
pub mod Packets
pub mod Stream
pub mod Endpoint
pub mod Credit
pub mod Taking
pub mod Conservation
pub mod Sound
pub mod Channel
pub mod Receive
pub mod Handlers
pub mod Mux
pub mod Deliver
pub mod Extends
pub mod Demuxing
pub mod Reach
pub mod Poll
pub mod Closing
