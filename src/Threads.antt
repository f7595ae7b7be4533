-- ===== src/Threads.antt =====
-- The lock-free queue of my_nginx_event/include/threadPool/my_lockfreequeue.h, which the thread pool of
-- my_nginx_event/src/threadPool/my_threadpool.cpp and the send thread use.
pub mod Queue
pub mod Pool
