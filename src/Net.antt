-- ===== src/Net.antt =====
-- The network layer: kernel/net/.
pub mod Session
pub mod IoServicePool
pub mod CommandServer
pub mod System
pub mod Conversation
pub mod Storage
mod Tests
