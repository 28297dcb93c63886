-- ===== src/Transport.antt =====
-- dap/Socket.cpp, dap/UnixProcess.cpp, dap/Process.cpp, dap/Queue.hpp and the transports of
-- dap/Client.cpp. What the operating system answers to `select`, `recv`, `send`, `read` and `write`, and
-- when the two threads run, is an argument: a list of answers, one for each round of a loop. A loop
-- that has used up its answers is still running.
pub mod Sockets
pub mod Pipes
pub mod Queues
pub mod Endpoints
