-- ===== src/Protocol/Sent/Delivery.antt =====
-- A row of requests from the client's side to the registry of the other side: `To`, the print of the
-- Json, `Send`, the chunks of the transport, the other side's buffer, the parser and `FromJSON`. The
-- print and the parser are cJSON's.
use wxdap.Base.{
  ◌≡◌, ◌≢◌, ◌≤◌, sym, ap, ◌∙◌, Option, none, some, List, [], ◌∷◌, ◌++◌, Bytes, codes, bytes_eq,
  if◌then◌else◌, All, length,
}
use wxdap.Decimal.{long_max}
use wxdap.Json.Parsed.{IsParsed, IsParsed-some, comparable_json}
use wxdap.Protocol.Registry.Parsed.{from_json-IsParsed}
use wxdap.Json.{CJson, Json, Node, IsInt}
use wxdap.Protocol.Arguments.{command_of}
use wxdap.Protocol.Registry.{Received, request, from_json}
use wxdap.Protocol.Requests.{ClientRequest}
use wxdap.Protocol.Sent.{base_of, client_request_to}
use wxdap.Protocol.Sent.Received.{client_request_to-some, from_json-client_request_to}
use wxdap.Rpc.{network_buffer}

-- What the registry makes of a request: nothing of one for variables, whose class is not registered.
abbrev pub taken : ClientRequest → Option Received
taken r =
    if bytes_eq (command_of r.arguments) (codes "variables")
    then none
    else some (request (base_of r))

module _ (c : CJson) (print : Json (c.Double) → Bytes) (parse : Bytes → Json (c.Double)) where
  open c use {Double}

  abbrev pub payload_of : ClientRequest → Bytes
  payload_of r = print (client_request_to c r)

  -- The print is not empty, not too long, and parsed back to the Json, but for numbers that nothing
  -- reads; the request's number is of 32 bits.
  abbrev pub IsPrinted : ClientRequest → Type 0
  IsPrinted r =
      (payload_of r ≢ [])
      × (length (payload_of r) ≤ long_max)
      × IsParsed (client_request_to c r) (parse (payload_of r))
      × IsInt r.seq

  abbrev pub written : List ClientRequest → Bytes
  written [] = []
  written (r ∷ rs) = network_buffer (payload_of r) ++ written rs

  pub parsed :
      (r : ClientRequest)
      → IsParsed (client_request_to c r) (parse (payload_of r))
      → (n : Node Double) × (parse (payload_of r) ≡ some n)
  parsed r h =
      let (m, is) = client_request_to-some c r in
      IsParsed-some m (parse (payload_of r)) (h ∙ ap comparable_json is)

  items_of : (rs : List ClientRequest) → All IsPrinted rs → List (Bytes × Node Double)
  items_of [] h = []
  items_of (r ∷ rs) ((n, l, p, s), h) = (payload_of r, (parsed r p).0) ∷ items_of rs h

  -- What the registry takes of the parsed request.
  pub from_json-parsed :
      (r : ClientRequest) (p : IsParsed (client_request_to c r) (parse (payload_of r)))
      → IsInt r.seq
      → from_json c (some (parsed r p).0) ≡ taken r
  from_json-parsed r p s =
      ap (from_json c) (sym (parsed r p).1)
      ∙ from_json-IsParsed c (client_request_to c r) (parse (payload_of r)) p
      ∙ from_json-client_request_to c r s
