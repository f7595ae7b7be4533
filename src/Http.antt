-- ===== src/Http.antt =====
-- The HTTP protocol: my_nginx_event/include/http and my_nginx_event/src/http.
pub mod Files
pub mod Request
pub mod Filename
pub mod Context
pub mod Response
pub mod Exception
