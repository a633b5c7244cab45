-- ===== src/Qmi.antt =====
-- driver/qmi/: messages of a modem's QMI services.
pub mod Tlvs
pub mod Qrtr
pub mod Uim
pub mod Transport
mod Examples
mod UimTests
mod TransportTests
