-- ===== src/Connection/RoundTrip.antt =====
-- What `DoParse` makes of a string that is put together from its parts.
use wxdap.Base.{ℕ, ◌≡◌, ◌≢◌, ◌≤◌, refl, ap, ◌∙◌, true, some, [], ◌∷◌, ◌++◌, Bytes, codes, Lacks}
use wxdap.Connection.{tcp, unix_local_socket, do_parse, parse_tcp, parse_unix, read_port}
use wxdap.Base.{false}
use wxdap.Protocol.Structs.{is_empty}
use wxdap.Decimal.{atol, pos, to_string, long_max}
use wxdap.Decimal.RoundTrip.{atol-to_string, StartsDigit, to_string-StartsDigit}
use wxdap.Protocol.{not_found}
use wxdap.Text.Chop.{before_first-append, after_first-append}

abbrev pub tcp_string : Bytes → ℕ → Bytes
tcp_string host port = codes "tcp" ++ b':' ∷ codes "//" ++ host ++ b':' ∷ to_string port

abbrev pub unix_string : Bytes → Bytes
unix_string path = codes "unix" ++ b':' ∷ codes "//" ++ path

read_port_digits : (s : Bytes) → StartsDigit s → read_port s ≡ atol s
read_port_digits [] h = absurd h
read_port_digits (d ∷ s) h = refl

read_port-to_string : (port : ℕ) → port ≤ long_max → read_port (to_string port) ≡ pos port
read_port-to_string port small =
    read_port_digits (to_string port) (to_string-StartsDigit port) ∙ atol-to_string port small

is_empty_ne : (s : Bytes) → s ≢ [] → is_empty s ≡ false
is_empty_ne [] h = absurd (h refl)
is_empty_ne (c ∷ s) h = refl

parse_tcp-append :
    (host : Bytes) (port : ℕ)
    → host ≢ []
    → Lacks b':' host
    → port ≤ long_max
    → parse_tcp (host ++ b':' ∷ to_string port)
      ≡ record { protocol = some tcp; host = host; port = pos port; path = []; is_ok = true }
unfolding parse_tcp
parse_tcp-append host port h lacks small =
    let first = before_first-append b':' host (to_string port) lacks in
    let second = after_first-append b':' host (to_string port) lacks in
    rw (first, second, read_port-to_string port small, is_empty_ne host h) refl

-- A host that is not empty and holds no colon, with a port that a `long` can tell, and a path that is
-- not empty, are read back from `tcp://host:port` and `unix://path`, and both are accepted.
pub do_parse-strings :
    (host path : Bytes) (port : ℕ)
    → host ≢ []
    → Lacks b':' host
    → port ≤ long_max
    → path ≢ []
    → (do_parse (tcp_string host port)
        ≡ some
            (record { protocol = some tcp; host = host; port = pos port; path = []; is_ok = true }))
      × (do_parse (unix_string path)
          ≡ some (record {
            protocol = some unix_local_socket;
            host = [];
            port = not_found;
            path = path;
            is_ok = true;
          }))
unfolding do_parse parse_unix
do_parse-strings host path port h lacks small p =
    (ap some (parse_tcp-append host port h lacks small), rw (is_empty_ne path p, parse_unix) refl)
