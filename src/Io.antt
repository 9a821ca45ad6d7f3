-- ===== src/Io.antt =====
-- Asynchronous input and output: lib/include/aio.hpp, lib/include/epoll.hpp and the connections of
-- lib/include/socket.hpp.
pub mod Outcome
pub mod File
pub mod IStream
pub mod OStream
pub mod Stream
pub mod Epoll
pub mod Socket
pub mod Descriptors
