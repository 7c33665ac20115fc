-- ===== src/Sdk.antt =====
-- ios-sdk/sandstorm_ios/sdk/: the objects that a test script uses, over the client.
pub mod Session
pub mod Device
pub mod Application
pub mod Locator
pub mod Page
