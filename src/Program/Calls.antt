-- ===== src/Program/Calls.antt =====
-- impl/all/core/wineing.cc and impl/wine/nx/nxtape.cc: what the threads do to the shared block, as
-- whole calls of the two functions of conc.cc.
pub mod Control
pub mod State
pub mod Readers
pub mod Uses
