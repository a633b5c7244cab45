-- ===== src/Mbim.antt =====
-- driver/mbim/: messages over a modem's control channel.
pub mod Words
pub mod Message
pub mod Wire
pub mod Protocol
pub mod Fragment
pub mod Session
mod Examples
mod WireTests
