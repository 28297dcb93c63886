-- ===== src/Transport/Endpoints/Meeting.antt =====
-- A server and a client that are given the same connection string.
use wxdap.Base.{
  ℕ, zero, suc, ◌<◌, ◌%◌, ◌≡◌, ◌≢◌, refl, ap, ◌∙◌, true, none, some, [], Bytes, codes, Lacks, arith,
  Option,
}
use wxdap.Connection.RoundTrip.{tcp_string, unix_string, do_parse-strings}
use wxdap.Decimal.{pos, int_of_size_small}
use wxdap.Transport.Endpoints.{
  int_of_long, port_bits, ServerCalls, listens, exception, create_server, start, ClientCalls,
  connect_remote, client_connect, start_parsed, connect_parsed,
}
use wxdap.Transport.Sockets.{connected, unsupported}

-- The calls that all succeed, with what `getsockname` would tell.
abbrev pub all_served : Option ℕ → ServerCalls
all_served told = record {
  socket_created = true;
  bound = true;
  listening = true;
  numeric = true;
  socket_name = told;
}

abbrev pub all_accepted : ClientCalls
all_accepted = record { numeric = true; accepted = true }

create_server_lem :
    (told : Option ℕ) (host : Bytes) (port : ℕ)
    → 0 < port
    → create_server (all_served told) host (pos port)
      ≡ listens (some host) (port % 65536) (pos port)
unfolding create_server port_bits
create_server_lem told host zero h = absurd (omega arith)
create_server_lem none host (suc n) h = refl
create_server_lem (some port) host (suc n) h = refl

-- Of one string `tcp://host:port`, with a host that is not empty and holds no colon and a port from 1 to
-- 2^31 - 1, the server listens at that host and the client connects to it, both at the port modulo
-- 2^16, while `Start` returns the port as it was given; provided that the system calls succeed. Of a
-- string `unix://path` with a path both throw.
pub start-client_connect :
    (told : Option ℕ) (host path : Bytes) (port : ℕ)
    → host ≢ []
    → Lacks b':' host
    → 0 < port
    → port < 2147483648
    → path ≢ []
    → (start (all_served told) (tcp_string host port)
        ≡ listens (some host) (port % 65536) (pos port))
      × (client_connect all_accepted (tcp_string host port)
          ≡ (some (host, port % 65536), connected))
      × (start (all_served told) (unix_string path) ≡ exception (codes "Unsupported protocol"))
      × (client_connect all_accepted (unix_string path) ≡ (none, unsupported))
unfolding start client_connect connect_remote port_bits int_of_long
start-client_connect told host path port h lacks positive small p =
    let (net, local) = do_parse-strings host path port h lacks (omega arith) p in
    let kept = int_of_size_small port small in
    let port' : int_of_long (pos port) ≡ pos port = kept in
    (
      ap (start_parsed (all_served told)) net
          ∙ ap (create_server (all_served told) host) port'
          ∙ create_server_lem told host port positive,
      ap (connect_parsed all_accepted) net ∙ ap (connect_remote all_accepted host) port',
      ap (start_parsed (all_served told)) local,
      ap (connect_parsed all_accepted) local,
    )
