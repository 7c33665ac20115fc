-- ===== src/Protocol.antt =====
-- ios-sdk/sandstorm_ios/protocol/: the wire protocol.
pub mod Framing
pub mod Messages
pub mod Selector
