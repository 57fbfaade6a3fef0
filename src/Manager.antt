-- ===== src/Manager.antt =====
-- src/relay_manager.hpp and src/relay_manager.cpp: the manager that routes messages between the raw
-- relays and the TLS relay.
pub mod World
pub mod Request
pub mod Response
pub mod Udp
pub mod Timer
pub mod Run
pub mod System
pub mod Failing
mod Tests
