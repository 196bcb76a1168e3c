-- ===== src/Serial.antt =====
-- 9.serialport: the kernel with semaphores and the interrupt-driven serial driver.
pub mod Queue
pub mod Machine
pub mod State
pub mod Process
pub mod Semaphore
pub mod Port
pub mod Dispatch
pub mod Syscall
pub mod Invariant
mod Examples
