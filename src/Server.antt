-- ===== src/Server.antt =====
-- The programs example/server_epoll_coro.cpp and example/server_blocking.cpp, with their routes in
-- example/router.hpp.
pub mod Spawned
pub mod Ports
pub mod Routes
pub mod Handled
pub mod Loop
pub mod Listening
pub mod Accepting
