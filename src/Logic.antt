-- ===== src/Logic.antt =====
-- `CLogicSocket` of my_nginx_event/src/logic/my_slogic.cpp: what a worker thread does with the bytes
-- that a connection has received.
pub mod Handle
pub mod Receive
pub mod Answer
pub mod Refuse
