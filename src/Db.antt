-- ===== src/Db.antt =====
-- The databases: db/.
pub mod Contract
pub mod HashTable
pub mod AvlTree
pub mod Agreement
pub mod Interface
mod Tests
