-- ===== src/Transport.antt =====
-- ios-sdk/sandstorm_ios/transport.py: the client of a running agent.
pub mod Net
pub mod Client
pub mod Raises
pub mod Invoke
