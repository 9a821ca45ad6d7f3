-- ===== src/Tests.antt =====
-- The functions run on the inputs of test/*.cpp and on others, and the theorems at inputs that meet
-- their conditions.
mod Http
mod Router
mod Io
mod Messages
mod Task
mod Streamed
mod Server
mod Served
mod Ownership
mod Connections
mod Scheduler
