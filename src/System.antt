-- ===== src/System.antt =====
-- impl/all/core/wineing.cc: how the threads work together through the shared control block.
pub mod Delivery
pub mod Halt
pub mod Overflow
pub mod Session
pub mod Unanswered
