-- ===== src/Lib.antt =====
-- A model of coroutine_http_server, an HTTP server library on C++20 coroutines and epoll.
--
-- A server (example/server_epoll_coro.cpp, example/server_blocking.cpp) accepts a connection, reads a
-- request from it, asks the router for the handler of the method and the target, runs it, and writes
-- its response. The parts, each with the file that models it:
--   lib/include/utility.hpp: `check_syscall` is Utility/Errors; `escape` is Utility/Escape; the
--     comparisons and the hash of `namespace cmp` are Utility/Compare; the functions of <cctype> that
--     the program calls are Utility/Ctype.
--   lib/include/type_name.hpp is Utility/TypeName, with the texts that GCC puts around a name.
--   lib/include/epoll.hpp: reads and writes at the readiness of a file, and `AsyncFileBuffer`, are
--     Io/File. The kernel is the list of its wake-ups: each has the event mask with which
--     `wait_file_event` resumes, and what the system call then does. When the list is used up the
--     coroutine stays suspended (`waits` in Io/Outcome). Bytes that a read leaves in the kernel wake the
--     next read. `read_string`, and `getline`, `read_buffer` and `print` over `AsyncFileStream`, are
--     Io/Stream: what `getc` and `putc` return is a list, with the masks of the waits between.
--     `EpollScheduler`, its awaiter and its promise are Io/Epoll, its `run` is Io/Epoll/Turn, and the `run`
--     of a task is Io/Epoll/Turn/Rounds; the set of descriptors that the kernel watches is a parameter, with what the manual says of
--     `epoll_ctl` as a record of laws (Io/Epoll/Registered).
--   lib/include/aio.hpp: `AsyncIStreamBase` is Io/IStream and `AsyncOStreamBase` is Io/OStream; the
--     object is a record that each operation takes and returns. Io/IStream/Flow says which bytes a
--     stream holds, however they are cut into reads. The classes that own file descriptors are
--     Io/Descriptors, with a child for each; Io/Descriptors/Session is a program that uses them, as a
--     sequence of events, and the duplicates of standard files are Io/Descriptors/Standard.
--   lib/include/http.hpp: the methods are Http/Method; `ParsedURI` is Http/Uri; `HTTPHeaders` is
--     Http/Headers; `HTTPHeaderBody` over `AsyncFileBuffer` is Http/HeaderBody; `HTTPRequest` is
--     Http/Request, its reader over a `FILE *` is Http/Request/PlainLines and Http/Request/Plain, over
--     the `fgets` of Http/Stdio; `HTTPResponse` is Http/Response; the readers and writers of all three
--     over `AsyncFileStream` are Http/Streamed; `HTTPRouter` is Http/Router, its nodes are
--     Http/Router/Trie.
--   lib/include/task.hpp: `when_all` is Task/WhenAll: its tasks end in a given order, with a value or an
--     exception each, and the start of them, in which they may end, is Task/WhenAll/Started. `when_any` is
--     Task/WhenAny, with what awaitables complete at once and which later; the timed scheduler is
--     Task/Timed, with readings of the clock as a list and what resumed coroutines do as a parameter, and
--     its `run` of an entry point is Task/Timed/Entry; what a promise holds is Task/Promise; the transfers
--     of control between coroutines are Task/Chain; who destroys a frame, through the moves, assignments
--     and destructions of tasks, is Task/Frames.
--   lib/include/socket.hpp: `socket_connect` and `socket_accept` are Io/Socket, addresses are
--     Io/Socket/Address, `create_tcp_client` is Io/Socket/Client, and the creation of sockets and the
--     blocking accept are in Io/Descriptors/Standard; what the system calls give are arguments.
--   example/router.hpp is Server/Routes; `handle_request` of both servers is Server/Handled (with what is
--     read of a whole request in Http/HeaderBody/Buffered and Http/Request/Received);
--     `spawn_task` is Server/Spawned; `AsyncLoop` is Server/Loop, over any schedulers, with `run_task`; the
--     search for a port in both `main`s is Server/Ports; listening in both, and the loop of the blocking
--     server, are Server/Listening; the entry point of the other is Server/Accepting.
--
-- A string is the list of its bytes. A writer of messages is the list of the calls of `puts` and
-- `putchar` that it makes (Io/OStream/Session runs such a list). An exception is a value with the fixed
-- part of its message (Prelude/Result). A `std::unordered_map` is an association list with each key
-- once, a `std::map` one in the order of its keys. A handler is an optional value, `none` for the null
-- `std::function`; the router never looks at what it does. The trie is a tree of nodes by value: no node
-- is shared in the source either, since each is owned by its parent.
--
-- Loops that recursion on a list does not follow run on fuel. A round of `getline` takes a byte from the
-- stream, and its fuel is the number of bytes that the kernel and the buffer hold, and one more. A round
-- of the loop of `puts` copies a byte or follows a flush, after which a byte fits; its fuel is the number
-- of the bytes, and one more, since it starts with room for all of them. A round of the loops over header
-- lines takes a line, of a byte at least, and their fuel is the number of bytes left, and one more. The
-- two overloads of the router that call themselves take their fuel as an argument. A round of
-- `read_string` that is not the last reads a chunk, of 64 bytes at least; its fuel is the number of bytes
-- in the kernel, and one more. Each round of the search for a port takes another of its 201 ports, and
-- each of `spawn_task` one of its tasks. A call of the timed scheduler's `run` goes on as long as there are
-- readings of the clock. The loop of `AsyncLoop` takes its fuel as an argument. The loops of the two `run`s
-- that take a task go on as long as there are calls of the `run` below them, which are a list, and the loops
-- that accept connections as long as there are clients.
--
-- Owners of resources (Prelude/Owned): a resource is a number, each object owns some, and the counts of what
-- all objects own are added up. A destructor that fails ends the process; so does a frame that is destroyed
-- twice, which is undefined in the source; both are the result `none`. The kernel and the memory give
-- numbers that are not in use: that is a condition on sequences of events.
--
-- Reason phrases come from a library that is not part of the repository, and are a parameter of
-- Http/Response; what the route `/sleep` does with a `double` is a parameter of Server/Routes; the names of
-- error numbers are one of Utility/Errors. Memory is taken to be enough. Not modelled: the content of the
-- frames of coroutines, which the language makes; the macros that fill in source locations, and output for
-- debugging; the texts of type names that compilers other than GCC give.
pub mod Prelude
pub mod Utility
pub mod UnorderedMap
pub mod Io
pub mod Http
pub mod Task
pub mod Server
pub mod Tests
