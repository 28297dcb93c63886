-- ===== src/Examples/Requests.antt =====
-- Requests of a client on their way.
use wxdap.Base.{true, ◌≡◌, refl, none, some, List, [], ◌∷◌, Bytes, codes, take, drop}
use wxdap.Decimal.{ℤ, pos, negsuc}
use wxdap.Examples.Values.{integer_json, as_parsed}
use wxdap.Base.{if◌then◌else◌, ◌==◌}
use wxdap.Json.{Json, at_name, get_integer}
use wxdap.Protocol.Registry.{request, from_json}
use wxdap.Protocol.Requests.{ClientRequest, threads, step_in}
use wxdap.Protocol.Sent.{base_of, client_request_to}
use wxdap.Protocol.Sent.Delivery.{written}
use wxdap.Protocol.Sent.Received.{from_json-client_request_to}

abbrev first : ClientRequest
first = record { seq = pos 1; arguments = threads }

abbrev second : ClientRequest
second = record { seq = pos 2; arguments = step_in (pos 7) true }

-- A print of one byte, the request's number, and the parser that reads it.
abbrev print_number : ℤ → Bytes
print_number (pos n) = n ∷ []
print_number (negsuc n) = 0 ∷ []

abbrev print_seq : Json ℤ → Bytes
print_seq j = print_number (get_integer (at_name j (codes "seq")) (pos 0))

abbrev parse_seq : Bytes → Json ℤ
parse_seq [] = none
parse_seq (n ∷ s) =
    if n == 1
    then as_parsed (client_request_to integer_json first)
    else as_parsed (client_request_to integer_json second)

abbrev requests : List ClientRequest
requests = first ∷ second ∷ []

abbrev wire : Bytes
wire = written integer_json print_seq parse_seq requests

abbrev wire_chunks : List Bytes
wire_chunks = take 9 wire ∷ drop 9 wire ∷ []

from_json-client_request_to_example :
    from_json integer_json (client_request_to integer_json second) ≡ some (request (base_of second))
from_json-client_request_to_example = from_json-client_request_to integer_json second refl
