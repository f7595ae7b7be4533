-- ===== src/Net.antt =====
-- Buffers, connections, timers and sending: my_nginx_event/src/net and my_nginx_event/include/http/Buffer.h.
pub mod Buffer
pub mod Timer
pub mod Pool
pub mod Flood
pub mod Send
pub mod Accept
pub mod Events
