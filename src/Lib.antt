-- ===== src/Lib.antt =====
-- TinyWebServer, the web server of this repository (TinyWebServer/src).
--
-- The program. A client's bytes come in through a socket (abstract/abstractsocket.cpp; its classes are
-- core/tcpsocket.cpp and core/sslsocket.cpp). The event loop (core/eventloop.cpp) hands each socket that
-- is ready to `HttpServices::process` (http/httpservices.cpp), which reads what has arrived, parses it
-- (http/httprequest.cpp), calls the handler that is registered for the method and the URI, writes the
-- response (http/httpresponse.cpp) and says whether the connection is kept. The loop restarts the timer
-- of a connection that is kept (util/timermanager.h) and closes those whose timer is over.
--
-- The files, with paths from TinyWebServer/src:
--   Base: names, Boolean tests, lists and texts that the modules share.
--   Util/Nocase, Util/HeaderMap: util/headermap.h, `strcasecmp` of util/util.h.
--   Util/Refer: `referTil` of util/util.h, on views of a string (`View`).
--   Util/Decimal: `std::to_string` and `std::stoul`. Util/Hex: `toHex` of util/util.h.
--   Util/Date: `toGmtFormat` of util/util.h; Date/Civil counts the seconds back, Date/Text is about the
--     text.
--   Util/Stream: the input streams of the standard library.
--   Http/Url: `uriUnescape` of http/url.h.
--   Http/Request: `HttpRequest`; `parse`, `parse_request_line`, `parse_request_headers` and `reset` are
--     the functions of these names. Request/Message is an independent description of what clients send,
--     Request/RoundTrip reads it back, Request/Safety is about any input at all.
--   Http/Range: `HttpRequest::parseRange` and `HttpResponse::replyRange`.
--   Http/Response: `HttpResponse`; the three `setBody`s are `set_text_body`, `set_stream_body` and
--     `set_file_body`, `toRawData` is `to_raw_data`.
--   Http/Services: `HttpServices`; the registration and `callHandler`. Services/Process is `process`,
--     with the `static thread_local` objects as a state that one call hands to the next; Services/Methods
--     is `onGet` and the functions like it.
--   Timer: `Timer` and `TimerManager`; Timer/Clock runs histories of calls on a clock.
--   Socket: `AbstractSocket`; its virtual functions are the interface `Socket`, and `Delivers` is what
--     the system promises for a connection that keeps up. Socket/Tcp is core/tcpsocket.cpp, Socket/Ssl
--     is core/sslsocket.cpp, each over a script of the answers of the system. Socket/Descriptor is what
--     becomes of the descriptors of both, Socket/Ssl/Context is `sslContext`.
--   FilePool: util/sharedfilepool.cpp; `get` takes the file system of the call as an argument.
--     FilePool/Threads is the same in threads: `begin` is a call of `get`, up to the end of its first
--     lock, and `next` one step more of it; Threads/Sound, Threads/Moves and
--     Threads/Runs are the invariant.
--   App: the handlers of GET and HEAD in main.cpp; App/Handlers has the others, and the services that
--     `main` registers. App/Main is what `main` does before `exec`, App/Dated the handler of GET by the times of files.
--   Event: util/event.h, with the static buffers of STATIC_ALLOCATOR.
--   Epoll: core/epoll.cpp; the socket set of the system is a list of the numbers of the sockets.
--   Loop: `EventLoop`. The steps of `processQueue`, `processErrorQueue` and `processTimeoutQueue` are
--     `process_queue`, `process_error_queue` and `process_timeout_queue`, a turn of `exec` is
--     `round`. Loop/Invariant says what holds between the calls, Loop/Accepting, Loop/Queue,
--     Loop/Closing and Loop/Timeouts that the calls keep it, Loop/Rounds is about `exec` and the
--     destructor, Loop/Paced, Loop/Living, Loop/Idle, Loop/Unheard and Loop/Timely about the clock,
--     Loop/Count about `m_count`, Loop/Leaving and Loop/SlowClose about a loop whose listeners are
--     unregistered between two rounds.
--   Server: webserver.cpp. Server/Life is about `exec`, Server/SlowClose about `requestQuit`.
--   Serving: the event loop with the HTTP services in it.
--   Backtrace: util/backtrace.cpp; `signalHandler` is `signal_trace`.
--   Workers: util/threadpool.h, as a step relation; no other file of the server uses it.
--   Util/StringMap: the tables of the standard library with texts as keys.
--   Tests: the theorems at concrete inputs, and runs.
--
-- How it is modelled. A text is a list of bytes. Sizes are natural numbers, reduced modulo 2^64 where
-- the source may wrap around. A call of undefined behaviour, or one that throws, is a result of its own
-- (`fault`, `none`). The loops of the parser and of the sockets have fuel: the parser starts its own with
-- more than the length of the data, each round moves the offset, and `parse` is proved not to run out;
-- for the sockets the theorems ask for more fuel than there are bytes.
-- A `std::unordered_map` is a list of entries; the order in which it is walked is an argument of
-- `to_raw_data`, and so is the date. Handlers are functions of the request and the response.
--
-- A socket is an object with a number of its own, as is a node of the list of timers. What the system
-- does in a turn of an event loop, its events, the descriptors and the times, is the argument `Round`;
-- the theorems ask that an event belongs to a socket that is watched, and that no socket has two. A call
-- on a socket or a timer that is gone is `none`. `exec` runs over a list of rounds; the destructor has
-- more fuel than there are timers, and each turn of it takes one.
--
-- In the file pool a thread goes from one lock to the next in one step, as what it does under a lock is
-- alone, and what it does between two locks reads only what is its own; the exception, the iterator that
-- is read behind its lock, is a step that may find its element gone. A call has three steps behind its
-- first, so it has no loop and no fuel.
--
-- A date is a number of seconds since 1970; the loop over the years has more fuel than there are days, and
-- the one over the months stops at the twelfth.
--
-- Each answer of a script gives or takes no more bytes than the call asks for. `std::string::at` is
-- `char_at`, which is `none` outside the string.
--
-- Not modelled: Windows and BSD variants, socket options, times before 1970, the output of main.cpp, and
-- `uriEscape`, a template that cannot be instantiated, as it increments an iterator that it declares const.
-- `exec` of the server is over any `process` that returns; the handlers of main.cpp may also throw.
-- The threads of the loops share only the listeners and, through the handlers, the file pool; their rounds
-- are not interleaved with one another.
pub mod Base
pub mod Util
pub mod Http
pub mod Timer
pub mod Socket
pub mod FilePool
pub mod App
pub mod Workers
pub mod Backtrace
pub mod Event
pub mod Epoll
pub mod Loop
pub mod Server
pub mod Serving
mod Tests
