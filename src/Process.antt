-- ===== src/Process.antt =====
-- The functions of proc.c whose text is the same in the directories adaptive, lpt and
-- work stealing. Those that call a function which differs take it as an argument.
pub mod Loop
pub mod Alloc
pub mod Boot
pub mod Dump
pub mod Exit
pub mod Wait
pub mod Sleep
pub mod Memory
pub mod Fork
pub mod Kill
pub mod Slots
pub mod Allocation
pub mod Reaping
pub mod Killing
pub mod Adoption
pub mod Forking
pub mod Exiting
mod Tests
