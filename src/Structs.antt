-- ===== src/Structs.antt =====
-- The structures that the emulator lays out in the guest's memory, android/structs.
pub mod Slot
mod Laws
pub mod Filled
pub mod Status
pub mod Usage
pub mod Clock
pub mod Link
pub mod Guest
pub mod Time
pub mod FileStat
pub mod Reread
pub mod Pack
pub mod Declared
pub mod Members64
pub mod Members32
pub mod AsDeclared
pub mod Laid
pub mod Views
mod Tests
