-- ===== src/Ide.antt =====
-- A.ide: the path parser, the block cache and the interrupt masks of the disk example.
pub mod Path
pub mod Bcache
pub mod Pic
pub mod Fs
pub mod Drive
pub mod Irq
pub mod Mkfs
mod Examples
