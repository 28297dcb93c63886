-- ===== src/Lib.antt =====
-- wxdap, a client library in C++ for the Debug Adapter Protocol, as a model with theorems.
--
-- The program. A client (dap/Client.cpp, dap/Client.hpp) talks to a debug adapter over a transport, a
-- socket or the pipes of a process. Its requests become Json trees (`To` of dap/dap.cpp, by way of
-- dap/JSON.cpp) and go out behind a Content-Length header (`Send` of dap/JsonRPC.hpp). A reader thread
-- hands over the bytes that arrive; dap/JsonRPC.cpp cuts them into messages, and `OnMessage` makes each
-- of them a message object (`FromJSON` of dap/dap.cpp) and an event or a callback for its owner.
-- dap/StringUtils.cpp has the string functions that these parts use.
--
-- The files.
--   Base: tests on numbers and strings, `if`, lists over the native numbers, library names.
--   Text: dap/StringUtils.cpp but for BuildArgv. A `std::string` is its bytes, a `wxString` its code
--     points. Text/Chop, Text/Trim, Text/Tokens and Text/Slashes are about BeforeFirst and AfterFirst,
--     Trim, Split and the slash conversions.
--   Argv: BuildArgv, and the command string of `StdoutTransport::Execute`. The scanner's state is
--     `Scan`; `step` is one round of its loop.
--   Decimal: `std::to_string` of a size and `std::atol`, as the standard library has them.
--   Rpc: dap/JsonRPC.cpp and dap/JsonRPC.hpp. The state is the buffer; `do_process_buffer` is
--     DoProcessBuffer, `process_loop` the loop of ProcessBuffer, `feed` a row of calls of OnDataRead.
--   Json: the wrapper `Json` over a tree of cJSON nodes; Json/Build has the functions that build a tree,
--     Json/Arrays the loops that fill and read an array, Json/Parsed what a tree becomes that is printed
--     and parsed, Json/Handles the counters that say when a tree is freed: objects that are made, copied,
--     assigned, destroyed and given away as steps.
--   Protocol: the messages, their `To` and `From`, and in Protocol/Registry the registered names with
--     `ObjGenerator::FromJSON` (Protocol/Registry/Parsed is about a parsed tree). Protocol/Requests has
--     the arguments that the client sets, Protocol/Arguments and Protocol/Sent the `To` of its requests,
--     Protocol/Reading the `From` of their arguments, and Protocol/Others the requests that the client
--     does not make; Protocol/Sent/Served reads every request back, and Protocol/Sent/Delivery follows a
--     row of requests through the whole way to the other side. Protocol/Items has what responses hold,
--     Protocol/Responses the responses, Protocol/Modules `ModuleEvent`.
--   Client: the client's state as a record. Client/Requests has one function for each request of the
--     API, Client/Receive has OnMessage with its handlers (Client/Receive/Owner what they hand to the
--     owner), Client/Session a row of calls of all kinds. A handler returns the new state with its
--     effects on the world in order. Client/InFlight, Client/Numbers and Client/Answers are about the
--     requests in flight; Client/Callbacks, Client/Order and Client/Fifo about callbacks;
--     Client/Handshake and Client/Restart about the life of a session; Client/Threads has the reader
--     thread and the main thread as a step relation over the queue of what `CallAfter` posts;
--     Client/Leaks is about requests that stay in flight, Client/Window about GetFrames; Client/Buffer
--     and Client/Chunks about messages that arrive in pieces.
--   Transport: the transports of dap/Client.cpp and what they stand on. Transport/Sockets has `Send` and
--     `Read` of dap/Socket.cpp, Transport/Pipes `Write`, `ReadAll` and `DoRead` of dap/UnixProcess.cpp,
--     Transport/Queues the queue of dap/Queue.hpp between the reader thread of dap/Process.cpp and
--     `StdoutTransport::Read`, as a step relation on the process with its queues, or none once it is
--     deleted.
--     Transport/Endpoints is about how the server and the client of dap/SocketServer.cpp and
--     dap/SocketClient.cpp open their sockets.
--   Log: dap/Log.cpp and dap/Log.hpp, with the static members as `Settings` and the levels in
--     Log/Levels; `statement` is what a
--     statement such as `LOG_INFO() << ...` writes.
--   Server: dap/ServerProtocol.cpp. `server_initialize` is Initialize, `server_check` is Check; a list has
--     what the socket gives in each round. Server/Handshake is about a client's request to initialize,
--     Server/Greeted about the answer on its way to the client.
--   Connection: dap/ConnectionString.cpp, `do_parse` is DoParse.
--   Examples: concrete inputs for the theorems.
--
-- Numbers. `size_t` and `int` are native numbers and `ℤ`; where the source converts or wraps, the
-- remainder is written out, with two exceptions in dap/JsonRPC.cpp: the end of the header section, which
-- the code converts to `int`, and its sum with the payload's length, a `long`, are unbounded here, so that
-- the model differs for header sections of more than 2 GiB and for a Content-Length within a header's
-- size of 2^63. The payload's length is bounded by `long_max`, 2^63 - 1.
--
-- Fuel. The loop of ProcessBuffer runs on one unit more than the buffer has bytes, the loop of Split on
-- the length of its text: each round takes at least one byte. Rpc/Fuel shows that more fuel changes
-- nothing, Text/Tokens that Split has all its pieces.
--
-- Parameters. cJSON (dap/cJSON.cpp, a copy of another project's) is the record `CJson`, with what its
-- header says of its constructors as laws. Its field `through` is what becomes of a `wxString` that
-- `Add` stores, as UTF-8 up to a NUL, and that `GetString` reads, by the current locale, and
-- `name_through` the same for the name of a node; the one law is that ASCII without a NUL is kept.
-- `Conversion` of Transport/Pipes has what the locale does to a text that is written to a pipe, with
-- the same law. `Json::Parse` is a function `parse`, `Json::ToString` a function `print`, the
-- conversion of a `wxString` character to `char` a function `to_char`, and wxFileName's GetFullName a
-- function `full_name`. What the operating system answers is a list of answers, one for each round of
-- a loop; a loop that has used them up is still running. The time of a line of the log and whether its
-- file can be opened are arguments too.
--
-- Not modelled. The handlers of the client's events are taken not to call the client back before they
-- return. The system calls that fork, signal and close, dap/msw.cpp, `ProcessGdbMessage` of the
-- server, which only sends, and the demonstration program dbgcli are left out.
pub mod Base
pub mod Text
pub mod Argv
pub mod Decimal
pub mod Rpc
pub mod Json
pub mod Log
pub mod Protocol
pub mod Client
pub mod Transport
pub mod Server
pub mod Connection
pub mod Examples
