-- ===== src/Lib.antt =====
-- A model of the event-driven HTTP server of this repository: its definitions follow the code, and
-- the theorems say what the code does on every input that they cover.
--
-- The program. Each connection has a context that collects the received bytes and parses them into a
-- request; a worker thread takes the bytes that the event loop has read, feeds the parser, lets the
-- middlewares and the router make a response, and puts its text into the queue of the send thread.
-- Connections come from a pool and go back to it through a recycling list; a timer queue finds those
-- that have been idle. All sources below are under my_nginx_event/.
--
-- The files.
--   Base           Boolean tests, lists, bytes, decimal numbers, C strings and maps over the native
--                  numbers, which all others use.
--   Http/Context   include/http/my_http_context.h, src/http/my_http_context.cpp: `State` has the
--                  fields, `Line`, `Headers`, `Body` and `Multipart` have one function for each case
--                  of the switch in `parseRequest`, `Loop` has the loops around them. `Message`,
--                  `Head`, `Complete`, `Announced`, `Chunks`, `Stall`, `Fresh` and `Reset` are about
--                  what the parser does with whole messages, with pieces, with what it waits for,
--                  and at the end.
--   Http/Request   include/http/my_http_request.h, src/http/my_http_request.cpp; `Http/Files` is its
--                  FileWriter, over a file system that is a parameter.
--   Http/Filename  urlDecode and sanitizeFilename of include/http/my_http_context.h.
--   Http/Response  include/http/my_http_response.h, src/http/my_http_response.cpp.
--   Http/Exception include/http/HttpException.h.
--   Net/Buffer     include/http/Buffer.h.
--   Net/Pool       src/net/my_socket_conn.cpp: the list that owns the connections, the free list and
--                  the recycling list, which hold positions in the first.
--   Net/Timer      src/net/my_socket_time.cpp.
--   Net/Flood      TestFlood of src/net/my_socket.cpp.
--   Net/Send       msgSend and zdClosesocketProc of src/net/my_socket.cpp; `Thread` is a turn of
--                  ServerSendQueueThread there, `Calls` has ngx_epoll_oper_event and sendproc, and
--                  `Write` is src/net/my_http_request_callback.cpp. `Stream`, `Order`, `Started`,
--                  `Drain`, `Delivery` and `Overtake` are about the order of the bytes, `Close` about
--                  closing.
--   Net/Accept     src/net/my_socket_accept.cpp.
--   Net/Events     ngx_epoll_process_events of src/net/my_socket.cpp.
--   Route          include/route/router.h, src/route/router.cpp. std::regex is a parameter.
--   Middleware     src/middleware/: the chain, the token bucket, the rate limiter, authentication.
--   Session        src/session/: session objects behind pointers, the memory storage, the manager.
--   Logic          src/logic/my_slogic.cpp: handleRequest, onRequest, threadRecvProcFunc. `Answer` and
--                  `Refuse` are about what a whole message is answered.
--   Config         src/config/my_conf.cpp.
--   Logger         src/logger/my_logger.cpp: ngx_sprintf_num, in `Format` ngx_vslprintf, in `Line` the
--                  lines of the log. `Items` is the specification that `Render` compares with, and
--                  `Number`, `Emit`, `Turns`, the two `Bounds` and `Line/Text` are about what is
--                  written.
--   Database       src/dbconnpool/connectionPool.cpp.
--   Processes      src/server/my_process_cycle.cpp and src/server/my_signal.cpp.
--   Threads        include/threadPool/my_lockfreequeue.h: `Queue` has each atomic access as a step,
--                  `Chain` and `Fifo` are about runs in which one operation follows the other;
--                  `Pool` is src/threadPool/my_threadpool.cpp.
--   Tests          concrete inputs at which the theorems apply.
--
-- Conventions. A string or a byte array is a list of codes. A mutable object is a record that an
-- operation takes and returns. An exception, a failed assertion and a call through a null pointer are
-- results. size_t is written out with its 2^64 where it can wrap around, and so are the other machine
-- integers. Time is a parameter of each operation.
--
-- Fuel. The outer loop of parseRequest has no bound in the source and runs on fuel; `unfinished` says
-- that the fuel ran out. Three rounds are enough for a message without a body and two for a piece of a
-- body. The inner loops over headers and parts have one more round than the buffer has bytes. The loop
-- of ngx_get_connection needs two rounds, and the loop over expired timers one more than there are
-- such timers. The loop over a format has one more round than the format has bytes, of which each
-- round reads one at least; the digits of a number have the 20 bytes of their array. The loop that
-- writes has a round for each answer of the kernel.
--
-- Assumptions. The operations on double are parameters, for which the token bucket states what IEEE 754
-- says of them. Each operation on a shared list is one step, as its lock makes it in the source; the
-- send thread and the thread pool use the lock-free queue as a list, which `Threads/Queue` shows for
-- operations that do not overlap. An `int` that is read before it was set holds any value.
--
-- What the kernel answers to send, recv, accept, epoll_wait, epoll_ctl, fork and waitpid is an argument,
-- as a list in the order of the calls where a loop makes several.
--
-- Not modelled: the start and the end of the threads, and opening the listening socket, the log file
-- and the JSON file, which are system calls; the MySQL client; the Redis storage; the routes of the
-- example application. Log output of the parts other than the logger is left out.

pub mod Base
pub mod Http
pub mod Net
pub mod Route
pub mod Middleware
pub mod Session
pub mod Logic
pub mod Config
pub mod Logger
pub mod Database
pub mod Processes
pub mod Threads
pub mod Tests
