-- ===== src/Tests.antt =====
-- Concrete inputs, tests of the definitions on them, and the theorems at them.
mod Data
mod Control
mod Threads
mod Steps
mod Run
mod Play
mod Boot
mod Calls
mod Reads
mod Conc
mod Replay
mod Whole
mod Ends
mod Program
