-- ===== src/Memory.antt =====
-- src/emulite/memory: the guest's address space.
pub mod Layout
pub mod Regions
pub mod Backend
pub mod Manager
mod Tests
