-- ===== src/Card.antt =====
-- The commands for logical channels of ISO 7816-4, which driver/ccid and driver/at send with the same
-- code over different links.
pub mod Status
pub mod Channels
mod Examples
