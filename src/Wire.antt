-- ===== src/Wire.antt =====
-- The DNY wire format: pkg/protocol and internal/domain/dny_protocol.
pub mod Frame
pub mod Checksum
pub mod Builder
pub mod Parser
pub mod Steps
pub mod Shape
pub mod RoundTrip
pub mod Accept
pub mod Corrupt
pub mod Packet
pub mod Framing
pub mod Splitter
pub mod Splitting
pub mod Progress
pub mod Gzip
pub mod Results
pub mod Single
