-- ===== src/Transport/Endpoints.antt =====
-- dap/SocketServer.cpp and dap/SocketClient.cpp: how a server and a client open their sockets, not on
-- Windows. What the system calls answer is an argument.
pub mod Meeting
use wxdap.Base.{
  ℕ, ◌+◌, ◌-◌, ◌*◌, ◌%◌, Bool, true, false, Option, none, some, Bytes, codes, if◌then◌else◌, not,
  bytes_eq, [],
}
use wxdap.Connection.{Protocol, tcp, unix_local_socket, ConnectionString, do_parse}
use wxdap.Decimal.{ℤ, pos, negsuc, int_of_size}
use wxdap.Json.{is_zero}
use wxdap.Transport.Sockets.{
  Selected, timed_out, ready, failed, Attempt, connected, refused, unsupported,
}

-- The conversions of a `long` to `int` and of an `int` to the 16 bits of `htons`.
unfoldable pub int_of_long : ℤ → ℤ
unfolding int_of_size
int_of_long (pos n) = int_of_size n
int_of_long (negsuc n) = int_of_size (4294967295 - n % 4294967296)

unfoldable pub port_bits : ℤ → ℕ
port_bits (pos n) = n % 65536
port_bits (negsuc n) = 65535 - n % 65536

-- What the calls of `CreateServer` answer: whether `socket`, `bind` and `listen` succeed, whether
-- `inet_pton` can read the address, and the port that `getsockname` tells, if it does.
pub record ServerCalls : Type 0 where
  pub socket_created : Bool
  pub bound : Bool
  pub listening : Bool
  pub numeric : Bool
  pub socket_name : Option ℕ

-- `listens` has the address and the port that were bound, where the address is `none` if `inet_pton`
-- left it unset, and the number that is returned. An exception has its text, without the system's.
pub data Created : Type 0 where
  listens : Option Bytes → ℕ → ℤ → Created
  exception : Bytes → Created

abbrev pub bound_port : Option ℕ → ℤ → Option ℤ
bound_port none port = if is_zero port then none else some port
bound_port (some told) port = if is_zero port then some (pos told) else some port

unfoldable pub create_server : ServerCalls → Bytes → ℤ → Created
unfolding port_bits
create_server calls address port =
    if not calls.socket_created
    then exception (codes "Could not create socket: ")
    else if not calls.bound
    then exception (codes "CreateServer: bind() error: ")
    else elim (bound_port calls.socket_name port) [
      | none ↦ exception (codes "CreateServer: getsockname() error: ")
      | some result ↦
          if calls.listening
          then listens (if calls.numeric then some address else none) (port_bits port) result
          else exception (codes "CreateServer: listen() error: ")
    ]

-- With the protocol of a string that was accepted.
abbrev pub start_tcp : ServerCalls → ConnectionString → Option Protocol → Created
start_tcp calls cs (some tcp) = create_server calls cs.host (int_of_long cs.port)
start_tcp calls cs protocol = exception (codes "Unsupported protocol")

-- What `Start` does with the string once it is parsed; one that is too short made `DoParse` throw.
abbrev pub start_parsed : ServerCalls → Option ConnectionString → Created
start_parsed calls none = exception []
start_parsed calls (some cs) =
    if cs.is_ok
    then start_tcp calls cs cs.protocol
    else exception (codes "Invalid connection string provided")

unfoldable pub start : ServerCalls → Bytes → Created
unfolding do_parse create_server int_of_long
start calls connection_string = start_parsed calls (do_parse connection_string)

-- What `inet_pton` and `connect` answer to a client.
pub record ClientCalls : Type 0 where
  pub numeric : Bool
  pub accepted : Bool

-- The address and the port that `connect` was called with, if it was, and the answer.
abbrev pub Connecting : Type 0
Connecting = Option (Bytes × ℕ) × Attempt

unfoldable pub connect_remote : ClientCalls → Bytes → ℤ → Connecting
unfolding port_bits
connect_remote calls address port =
    if calls.numeric
    then (some (address, port_bits port), if calls.accepted then connected else refused)
    else (none, refused)

abbrev pub connect_tcp : ClientCalls → ConnectionString → Option Protocol → Connecting
connect_tcp calls cs (some unix_local_socket) = (none, unsupported)
connect_tcp calls cs protocol = connect_remote calls cs.host (int_of_long cs.port)

abbrev pub connect_parsed : ClientCalls → Option ConnectionString → Connecting
connect_parsed calls none = (none, unsupported)
connect_parsed calls (some cs) =
    if cs.is_ok then connect_tcp calls cs cs.protocol else (none, refused)

-- `Connect`, whose answers are those of an `Attempt`.
unfoldable pub client_connect : ClientCalls → Bytes → Connecting
unfolding do_parse connect_remote int_of_long
client_connect calls connection_string = connect_parsed calls (do_parse connection_string)

-- `WaitForNewConnectionRaw`: no connection, a connection, or an exception. The timeout is in seconds;
-- the answers are those of `select` and of `accept`, whose error is negative.
pub data Accepted : Type 0 where
  no_connection : Accepted
  new_socket : ℕ → Accepted
  accept_thrown : Accepted

abbrev pub accept_answer : ℤ → Accepted
accept_answer (pos fd) = new_socket fd
accept_answer (negsuc n) = accept_thrown

unfoldable pub wait_for_new_connection : Selected → ℤ → ℤ → Accepted
wait_for_new_connection selected accepted (negsuc n) = no_connection
wait_for_new_connection timed_out accepted (pos timeout) = no_connection
wait_for_new_connection failed accepted (pos timeout) = accept_thrown
wait_for_new_connection ready accepted (pos timeout) = accept_answer accepted
