-- ===== src/Examples/Endpoints.antt =====
-- One connection string for a server and a client.
use wxdap.Base.{◌≡◌, ◌%◌, none, some, Bytes, codes, arith}
use wxdap.Connection.RoundTrip.{tcp_string, unix_string}
use wxdap.Decimal.{pos}
use wxdap.Transport.Endpoints.{listens, exception, start, client_connect}
use wxdap.Transport.Endpoints.Meeting.{start-client_connect, all_served, all_accepted}
use wxdap.Transport.Sockets.{connected, unsupported}

abbrev address : Bytes
address = codes "127.0.0.1"

start-client_connect_example :
    (start (all_served none) (tcp_string address 12345)
      ≡ listens (some address) (12345 % 65536) (pos 12345))
    × (client_connect all_accepted (tcp_string address 12345)
        ≡ (some (address, 12345 % 65536), connected))
    × (start (all_served none) (unix_string (codes "/tmp/dap"))
        ≡ exception (codes "Unsupported protocol"))
    × (client_connect all_accepted (unix_string (codes "/tmp/dap")) ≡ (none, unsupported))
start-client_connect_example =
    start-client_connect none address (codes "/tmp/dap") 12345 (ground arith) (ground arith)
      (omega arith) (omega arith) (ground arith)
