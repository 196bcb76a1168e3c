-- ===== src/UserProcess.antt =====
-- 8.UserProcess: the page allocator, the page tables of user processes, and the processes.
pub mod Kalloc
pub mod Page
pub mod Process
pub mod Boot
mod Examples
