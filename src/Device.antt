-- ===== src/Device.antt =====
-- The host's device process (crates/infinigpu-device): the guest's resources, the decoding of its
-- control messages, the guest memory that is mapped, the drain of the ring, and the hand-off to the
-- worker.
pub mod Resources
pub mod Dispatch
pub mod Dma
pub mod Mailbox
pub mod Drain
pub mod Forwarded
pub mod Backend
pub mod Regs
pub mod Registers
pub mod Scanout
pub mod Vulkan
pub mod Cursor
pub mod Process
pub mod Engine
pub mod Config
pub mod Server
mod Tests
mod BackendTests
mod EngineTests
