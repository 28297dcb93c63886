-- ===== src/Examples/Handshake.antt =====
-- A whole handshake between a client and a server, and a client that reads an answer in pieces.
use wxdap.Base.{
  ◌≡◌, ◌≢◌, refl, ap, ap₂, ◌∙◌, some, List, [], ◌∷◌, ◌++◌, Bytes, codes, arith, take, drop,
  bytes_eq, append-take-drop, append-nil, sym, map, concat, if◌then◌else◌,
}
use wxdap.Client.Buffer.{on_rpc}
use wxdap.Client.Chunks.{run-sent}
use wxdap.Client.Session.{new_client, run, data_read, on_messages}
use wxdap.Decimal.{ℤ, pos}
use wxdap.Examples.Server.{arguments}
use wxdap.Examples.Session.{answer_to, same_name, read_answer}
use wxdap.Examples.Values.{integer_json, as_parsed, as_parsed-IsParsed}
use wxdap.Json.{Json, Node, at_name, get_string}
use wxdap.Json.Build.{add_object, add_string, add_int, add_bool, add_item, create_object}
use wxdap.Protocol.{read_string, request_to}
use wxdap.Protocol.Arguments.{initialize_to}
use wxdap.Protocol.Sent.{client_request_to}
use wxdap.Protocol.Sent.Delivery.{IsPrinted, written}
use wxdap.Rpc.{network_buffer}
use wxdap.Rpc.Message.{buffered}
use wxdap.Server.{
  NetRound, quiet, arrived, server_initialize, server_written, initialize_response,
  initialized_event, initialize_response_to, initialized_event_to,
}
use wxdap.Server.Greeted.{handshake_completes, IsGreeted, IsServerPrinted, received}
use wxdap.Server.Handshake.{initialize_request, chunks_of, server_initialize_lem}

-- Each message is printed as its type.
abbrev print_type : Json ℤ → Bytes
print_type j = read_string integer_json j (codes "type")

abbrev parse_type : Bytes → Json ℤ
parse_type s =
    if bytes_eq s (codes "request")
    then as_parsed (client_request_to integer_json (initialize_request (pos 1) arguments))
    else if bytes_eq s (codes "response")
    then as_parsed (initialize_response_to integer_json)
    else as_parsed (initialized_event_to integer_json)

abbrev request_bytes : Bytes
request_bytes = network_buffer (codes "request")

abbrev net_rounds : List NetRound
net_rounds = quiet ∷ arrived request_bytes ∷ []

abbrev answer_bytes : Bytes
answer_bytes = network_buffer (codes "response") ++ (network_buffer (codes "event") ++ [])

abbrev answer_chunks : List Bytes
answer_chunks = take 40 answer_bytes ∷ drop 40 answer_bytes ∷ []

request_filled : request_bytes ≢ []
unfolding network_buffer
request_filled e = cc

in_two : (n : _) (s : Bytes) → concat (take n s ∷ drop n s ∷ []) ≡ s
in_two n s = ap (λ t. take n s ++ t) (append-nil (drop n s)) ∙ append-take-drop n s

print_type_request :
    print_type (client_request_to integer_json (initialize_request (pos 1) arguments))
    ≡ codes "request"
unfolding client_request_to at_name get_string add_object request_to add_string add_int
    create_object initialize_to add_bool
print_type_request = refl

print_type_response : print_type (initialize_response_to integer_json) ≡ codes "response"
unfolding initialize_response_to at_name get_string add_item create_object add_string add_bool
    add_int
print_type_response = refl

print_type_event : print_type (initialized_event_to integer_json) ≡ codes "event"
unfolding initialized_event_to at_name get_string add_string add_int create_object
print_type_event = refl

request-IsPrinted :
    IsPrinted integer_json print_type parse_type (initialize_request (pos 1) arguments)
request-IsPrinted = rw print_type_request (
  ground arith,
  omega arith,
  as_parsed-IsParsed (client_request_to integer_json (initialize_request (pos 1) arguments)),
  refl,
)

response-IsServerPrinted :
    IsServerPrinted integer_json print_type parse_type same_name initialize_response
response-IsServerPrinted =
    rw print_type_response
      (ground arith, omega arith, as_parsed-IsParsed (initialize_response_to integer_json))

event-IsServerPrinted :
    IsServerPrinted integer_json print_type parse_type same_name initialized_event
event-IsServerPrinted =
    rw print_type_event
      (ground arith, omega arith, as_parsed-IsParsed (initialized_event_to integer_json))

request_arrives :
    concat (chunks_of net_rounds)
    ≡ written integer_json print_type parse_type (initialize_request (pos 1) arguments ∷ [])
request_arrives = ap (λ p. network_buffer p ++ []) (sym print_type_request)

server_answers :
    answer_bytes
    ≡ server_written integer_json print_type
        (server_initialize integer_json parse_type net_rounds (buffered [])).sent
server_answers =
    ap₂ (λ p q. network_buffer p ++ (network_buffer q ++ [])) (sym print_type_response)
      (sym print_type_event)
    ∙ ap (server_written integer_json print_type) (
        sym
          (server_initialize_lem integer_json print_type parse_type (pos 1) arguments net_rounds
            request-IsPrinted (tt, (request_filled, tt)) request_arrives).0)

handshake_completes_example :
    IsGreeted integer_json new_client
      (received integer_json print_type parse_type same_name initialize_response)
      (received integer_json print_type parse_type same_name initialized_event)
      (run integer_json parse_type same_name new_client (map data_read answer_chunks))
handshake_completes_example =
    handshake_completes integer_json print_type parse_type same_name (pos 1) arguments net_rounds
      new_client answer_chunks request-IsPrinted (tt, (request_filled, tt)) request_arrives refl tt
      response-IsServerPrinted event-IsServerPrinted (in_two 40 answer_bytes ∙ server_answers)

abbrev answer_node : (n : Node ℤ) × (answer_to (codes "threads") ≡ some n)
answer_node = (_, refl)

abbrev sent_answer : Bytes
sent_answer = network_buffer (codes "threads") ++ []

run-sent_example :
    run integer_json read_answer same_name new_client
      (map data_read (take 9 sent_answer ∷ drop 9 sent_answer ∷ []))
    ≡ on_rpc (buffered []) (on_messages integer_json new_client (answer_node.0 ∷ []))
run-sent_example =
    run-sent integer_json read_answer same_name new_client ((codes "threads", answer_node.0) ∷ [])
      (take 9 sent_answer ∷ drop 9 sent_answer ∷ []) refl ((ground arith, omega arith, refl), tt)
      (in_two 9 sent_answer)
