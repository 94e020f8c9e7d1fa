-- ===== src/Lib.antt =====
-- libcocao: a C++ server framework of fibers, hooked system calls, timers and I/O events.
--
-- The program. Fibers (libcocao/fiber.cc) are stacks that a thread switches between. A Scheduler
-- (libcocao/schedule.cc) has a queue of fibers and callbacks and threads that run them. IOManager
-- (libcocao/iomanager.cc) is a Scheduler whose idle fiber waits on epoll and schedules what an event
-- or a timer of TimerManager (libcocao/timer.cc) has ready. The hooked system calls
-- (libcocao/hook.cc) make the fiber wait for an event instead of the thread for the call, and keep what
-- they know of a descriptor in FdManager (libcocao/fd_manager.cc). A Socket (libcocao/socket.cc) is a descriptor with
-- its addresses, a TcpServer (libcocao/tcp_server.cc) binds sockets and accepts clients on them, and
-- HttpServer (libcocao/http) reads requests from a client, lets servlets answer them and sends the responses.
--
-- The files. Base: what all parts share, tests on numbers and lists with their laws. Timer: Timer and
-- TimerManager with an explicit heap of timers, so that a handle and the set share a timer; its
-- modules Set, Inv, Fire, Expiry and History have the order of the set, the invariant, listExpiredCb and
-- whole histories. IoManager: the contexts of descriptors and addEvent, delEvent, cancelEvent,
-- cancelAll and the loop body of idle; Masks and Contexts have lemmas, Inv the invariant, Delivery,
-- CancelAll, Idle and Unregistered the operations. Mutex: the scoped locks of libcocao/mutex.h. FdManager:
-- FdCtx and the table. Hook: do_io's loop, with Calls (do_io, connect, accept, socket, close,
-- sleeps) and Options (fcntl, ioctl, setsockopt). Scheduler: the queue and the threads' rounds, with
-- Pick and Counts. Fiber: resume, yield and the contexts. ByteArray: libcocao/bytearray.cc, its varints,
-- with Blocks (the list of blocks and its iovecs; its modules Inv, Loops, Content and Buffers are about blocks with memory, which
-- the constructors do not make, and Faults about the blocks that they make) and Fixed (on the sequence of bytes, the integers of fixed width and
-- strings). Stream: the loops of libcocao/stream.cc, and SocketStream in Sockets. Log: the levels, the formatter, the appenders and
-- the loggers of libcocao/log.cc. Address: libcocao/address.cc, with Ipv4, Ipv6, Unix, Lookup, Order and
-- Count. Socket: libcocao/socket.cc, with Calls (the system calls), State (one operation) and History (all of them). TcpServer:
-- libcocao/tcp_server.cc, with Binding and Accepting. Http: texts, the maps of headers and the names of methods, with Cuts,
-- Order, Maps and Methods; Request and its Params, and Response, for libcocao/http/http.cc; Text, its texts of messages,
-- with a reader of messages in Reader and what a request is to send in Wanted; Servlet, libcocao/http/servlet.cc, with Globs, Delete, Dispatch and
-- Matched; Server, libcocao/http/http_server.cc and libcocao/http/http_session.cc. A module called Runs has runs at concrete inputs.
--
-- The correspondence. A function has the name of its C++ function in lower case, and its clauses are
-- the branches of the code. A member is a field of the same name without m_. Code that is not in the
-- repository is a parameter or a script: the clock and epoll_ctl, fstat and fcntl, the pthread
-- calls, getaddrinfo, getifaddrs and inet_pton, strftime and the printing of numbers, fnmatch, StringUtil, the parser of
-- messages and its tables of methods and states, for a hooked call the list of what the system's function returned, and for
-- an operation of a socket a record of the system's answers. What is relied on is
-- a record of laws that a theorem takes. Locks are left out where one call holds the lock to its end:
-- a call is one step. FdManager::get and TimerManager::listExpiredCb change from the reading to the writing lock in the middle,
-- and are one step here all the same. That unlock of the reading and the writing guards calls wrlock stands in Mutex alone:
-- the other parts are modelled as if the guards gave their locks back. In Scheduler a step is what a thread does between two points at which others can act.
-- Failed assertions and accesses out of bounds are results of their own.
--
-- Bounds. Machine integers that can wrap have the wrap written out (the times of the sleeps, the
-- limits of setsockopt, an int result); the times of timers are numbers without a bound, as a uint64_t of
-- milliseconds does not wrap in the life of a program. Every function is by structural recursion. The loops
-- of the varints count the places of their array or their rounds, which are the bounds of the code.
--
-- CountBytes has fuel, and one round more than the type has bits is enough. PARSE_PARAM has fuel, and one
-- round more than the text has characters is enough. The service of a connection has the number of its turns. The memory of a number is its
-- bytes from the low one, as on a little endian host.
--
-- Not modelled: the reads and writes of SocketStream with a byte array, which do not compile; the conversions of headers by lexical_cast and
-- HttpRequest::delParam, which does not compile; the options that are read from a socket; the files and floats of byte
-- arrays, the reopening of log
-- files; the wait on epoll and the pipe of IOManager; the creation and the joins of threads; the stacks
-- of fibers. The vendored http-parser and the files that CMake has generated are not part of the
-- program's logic.
pub mod Base
pub mod Timer
pub mod IoManager
pub mod Mutex
pub mod FdManager
pub mod Hook
pub mod Scheduler
pub mod Fiber
pub mod ByteArray
pub mod Stream
pub mod Log
pub mod Address
pub mod Socket
pub mod TcpServer
pub mod Http
