-- ===== src/Util.antt =====
-- TinyWebServer/src/util/util.h and headermap.h.
pub mod Nocase
pub mod Refer
pub mod HeaderMap
pub mod Decimal
pub mod Date
pub mod Hex
pub mod Stream
pub mod StringMap
