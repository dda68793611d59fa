-- ===== src/System.antt =====
-- The whole machine: the processes that run on the CPUs, the calls that they make, the interrupts,
-- and the scheduler of each CPU, as a step relation over any of the three schedulers. P->lock
-- is held from the stores of yield(), sleep() and kexit() over the switch to the stores of scheduler()
-- behind it, and these are one step; kfork() releases its locks twice on its way, and is three.
pub mod Views
pub mod Wakes
pub mod Policy
pub mod Effects
pub mod Calls
pub mod Forks
pub mod Exits
pub mod Boot
pub mod Step
pub mod Change
pub mod Exclusion
pub mod Life
pub mod Pids
pub mod Start
pub mod Switch
pub mod AdaptiveRun
pub mod LptRun
pub mod StealingRun
pub mod Parked
pub mod Handshake
mod Tests
