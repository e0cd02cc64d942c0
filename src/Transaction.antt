-- ===== src/Transaction.antt =====
-- nebari/src/transaction: the log of committed transactions and the thread that writes it.
pub mod State
pub mod Log
pub mod Search
pub mod Ids
pub mod Lock
pub mod Manager
