-- ===== src/Apdu.antt =====
-- apdu/: commands to the card, its responses, and the transmitter that chains them.
pub mod Request
pub mod Response
pub mod Transmitter
mod Examples
