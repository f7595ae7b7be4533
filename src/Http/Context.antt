-- ===== src/Http/Context.antt =====
-- `HttpContext` of my_nginx_event/include/http/my_http_context.h and the state machine
-- `parseRequest` of my_nginx_event/src/http/my_http_context.cpp. One function stands for each
-- case of its `switch`; the loops around them are in `Loop`.
pub mod State
pub mod Line
pub mod Headers
pub mod Body
pub mod Multipart
pub mod Loop
pub mod Stall
pub mod Message
pub mod Complete
pub mod Chunks
pub mod Announced
pub mod Fresh
pub mod Head
pub mod Reset
