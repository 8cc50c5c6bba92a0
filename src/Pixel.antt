-- ===== src/Pixel.antt =====
-- The pixel transport (crates/infinigpu-pixel): the queue of each viewer, the hub that fills the
-- queues, the headers of the messages, and the cutting of the encoder's output into access units.
pub mod Queue
pub mod Header
pub mod Hub
pub mod Splitter
pub mod Encoder
pub mod Reader
pub mod Streamer
mod Tests
mod StreamerTests
