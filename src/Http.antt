-- ===== src/Http.antt =====
-- lib/include/http.hpp
pub mod Method
pub mod Uri
pub mod Router
pub mod Headers
pub mod HeaderBody
pub mod Stdio
pub mod Request
pub mod Response
pub mod Streamed
