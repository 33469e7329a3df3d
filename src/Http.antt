-- ===== src/Http.antt =====
-- TinyWebServer/src/http.
pub mod Url
pub mod Request
pub mod Range
pub mod Response
pub mod Services
