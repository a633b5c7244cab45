-- ===== src/Bertlv.antt =====
-- bertlv/: BER-TLV objects, their tags and lengths, the reader and the writer.
pub mod Stream
pub mod Tag
pub mod Length
pub mod Ensures
pub mod Tlv
pub mod Selector
pub mod Primitive
mod Examples
mod PrimitiveTests
