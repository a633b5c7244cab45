-- ===== src/Sgp22.antt =====
-- v2/: the SGP.22 messages of the ES interfaces.
pub mod Bpp
pub mod Identifier
pub mod Message
pub mod Notification
pub mod Es10c
pub mod Es10b
pub mod Profile
mod Examples
mod MessageTests
