-- ===== src/Connection.antt =====
-- dap/ConnectionString.cpp: the parser of a connection string, on a system that has local sockets.
pub mod RoundTrip
use wxdap.Base.{
  ℕ, zero, suc, Bool, true, false, ◌&&◌, not, Option, none, some, List, [], ◌∷◌, Bytes, codes,
  bytes_eq, if◌then◌else◌,
}
use wxdap.Decimal.{ℤ, pos, negsuc, atol}
use wxdap.Protocol.{not_found}
use wxdap.Protocol.Structs.{is_empty, int_eq}
use wxdap.Text.{before_first, after_first}

pub data Protocol : Type 0 where
  tcp unix_local_socket : Protocol

-- A protocol that is not set is `none`.
pub record ConnectionString : Type 0 where
  pub protocol : Option Protocol
  pub host : Bytes
  pub port : ℤ
  pub path : Bytes
  pub is_ok : Bool

abbrev pub no_connection : ConnectionString
no_connection = record { protocol = none; host = []; port = not_found; path = []; is_ok = false }

-- `substr(2)`: `none` is the exception where the string is shorter.
abbrev pub behind_two : Bytes → Option Bytes
behind_two [] = none
behind_two (a ∷ []) = none
behind_two (a ∷ b ∷ s) = some s

-- `atol` of a string that is not empty; it stops at a NUL as at any other byte that is no digit.
abbrev pub read_port : Bytes → ℤ
read_port [] = not_found
read_port (d ∷ s) = atol (d ∷ s)

unfoldable pub parse_tcp : Bytes → ConnectionString
unfolding before_first after_first
parse_tcp address =
    let host = before_first address b':' in
    let port = read_port (after_first address b':') in
    record {
      protocol = some tcp;
      host = host;
      port = port;
      path = [];
      is_ok = not (is_empty host) && not (int_eq port not_found);
    }

unfoldable pub parse_unix : Bytes → ConnectionString
parse_unix address = record {
  protocol = some unix_local_socket;
  host = [];
  port = not_found;
  path = address;
  is_ok = not (is_empty address);
}

-- With the part in front of the first colon and the one behind it.
unfoldable pub parse_parts : Bytes → Bytes → Option ConnectionString
unfolding parse_tcp parse_unix
parse_parts protocol rest =
    if bytes_eq protocol (codes "tcp")
    then elim (behind_two rest) [ none ↦ none | some address ↦ some (parse_tcp address) ]
    else if bytes_eq protocol (codes "unix")
    then elim (behind_two rest) [ none ↦ none | some address ↦ some (parse_unix address) ]
    else some no_connection

-- `DoParse` of a new object: `none` is the exception of `substr`.
unfoldable pub do_parse : Bytes → Option ConnectionString
unfolding parse_parts
do_parse s = parse_parts (before_first s b':') (after_first s b':')
