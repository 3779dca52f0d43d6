-- ===== src/Http.antt =====
-- The HTTP layer: include/http and src/http.
pub mod Request
pub mod RequestParser
pub mod Reply
