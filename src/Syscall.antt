-- ===== src/Syscall.antt =====
-- syscall.c, syscall.h and sysproc.c: arguments, the table of handlers, and the process calls.
pub mod Args
pub mod Table
pub mod Calls
pub mod Handlers
pub mod Pause
pub mod Bounds
pub mod Dispatch
pub mod Growth
pub mod Resize
mod Tests
