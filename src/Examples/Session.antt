-- ===== src/Examples/Session.antt =====
-- A client in a session.
use wxdap.Base.{◌≡◌, refl, true, false, ◌||◌, ◌&&◌, none, some, List, [], ◌∷◌, Bytes, codes, arith}
use wxdap.Client.{Client, completed, dap_event, initialize_response, no_attachment, make_request}
use wxdap.Client.Answers.{get_originating_request-request_of}
use wxdap.Client.Fifo.{run-Moves, all_asked}
use wxdap.Client.Handshake.{on_message_initialize, is_initialize}
use wxdap.Client.Leaks.{on_response_forgets}
use wxdap.Client.Order.{Moves, evaluate_asked, source_asked}
use wxdap.Client.Receive.{on_message, on_response, feature_names}
use wxdap.Client.Requests.{request_of, is_supported, initialize_call, evaluate_call}
use wxdap.Client.Restart.{run_restart}
use wxdap.Client.Session.{Input, call, data_read, connection_error, new_transport, run, new_client}
use wxdap.Decimal.{ℤ, pos}
use wxdap.Examples.Values.{integer_json}
use wxdap.Json.{Json, get_bool, at_name}
use wxdap.Json.Building.{object, object_node, string_node, bool_node}
use wxdap.Json.{cons, nil, get_string}
use wxdap.Client.{send_request, Outcome}
use wxdap.Client.Requests.{initialize_session}
use wxdap.Protocol.{response_from, message_from}
use wxdap.Client.Answers.{answered_twice}
use wxdap.Protocol.{Response}
use wxdap.Protocol.Registry.{from_json, is_in}
use wxdap.Protocol.Requests.{threads, variables, native}
use wxdap.Rpc.{network_buffer}

-- {"type":"response","command":command,"body":{"supportsStepBack":true}}
abbrev pub answer_to : Bytes → Json ℤ
answer_to command =
    let body = cons (bool_node integer_json (codes "supportsStepBack") true) nil in
    object integer_json (
      cons (string_node integer_json (codes "type") (codes "response")) (
        cons (string_node integer_json (codes "command") command)
          (cons (object_node integer_json (codes "body") body) nil)))

-- Each payload is taken as the command of an answer.
abbrev pub read_answer : Bytes → Json ℤ
read_answer payload = answer_to payload

abbrev pub same_name : Bytes → Bytes
same_name path = path

-- A transport, and the initialize request.
abbrev start : List Input
start = new_transport ∷ call (initialize_call none) ∷ []

abbrev started : Client
started = (run integer_json read_answer same_name new_client start).0

abbrev threads_response : Response
threads_response = record {
  base = record { seq = pos 9; type = codes "response" };
  request_seq = pos 2;
  success = true;
  message = [];
  command = codes "threads";
}

abbrev evaluate_response : Response
evaluate_response = record threads_response { command = codes "evaluate" }

started_transport : started.transport ≡ true
unfolding run initialize_session send_request
started_transport = refl

threads_number : threads_response.request_seq ≡ (make_request started threads).0.seq
unfolding run initialize_session send_request make_request
threads_number = refl

-- The request for the threads gets the answer with its number, 2.
get_originating_request-request_of_example :
    answered_twice integer_json read_answer same_name
      (request_of {D = ℤ} started threads).0
      threads_response
    ≡ (some ((make_request started threads).0), none)
get_originating_request-request_of_example =
    get_originating_request-request_of integer_json read_answer same_name start started threads
      threads_response refl (omega arith) started_transport threads_number

-- A client that waits for the value of one expression.
abbrev waiting : Client
waiting = record new_client {
  transport = true;
  reader_thread = true;
  handshake_state = completed;
  evaluate_queue = 5 ∷ [];
}

abbrev inputs : List Input
inputs =
    call (evaluate_call (codes "x") (pos 1) variables 6 native)
    ∷ data_read (network_buffer (codes "evaluate"))
    ∷ []

run-Moves_example :
    Moves waiting
      (all_asked evaluate_asked inputs)
      (all_asked source_asked inputs)
      (run integer_json read_answer same_name waiting inputs)
run-Moves_example = run-Moves integer_json read_answer same_name waiting inputs refl (tt, (tt, tt))

run_restart_example :
    (run integer_json read_answer same_name waiting (connection_error ∷ inputs)
      ≡ run integer_json read_answer same_name new_client (connection_error ∷ inputs))
    × (run integer_json read_answer same_name waiting (new_transport ∷ inputs)
        ≡ run integer_json read_answer same_name new_client (new_transport ∷ inputs))
run_restart_example = run_restart integer_json read_answer same_name waiting new_client inputs refl

is_initialize_answer :
    is_initialize (from_json integer_json (answer_to (codes "initialize"))) ≡ true
unfolding from_json response_from message_from at_name get_string
is_initialize_answer = refl

abbrev initialized : Outcome ℤ
initialized = on_message integer_json new_client (answer_to (codes "initialize"))

on_message_initialize_example :
    (initialized.1
      ≡ dap_event initialize_response no_attachment (answer_to (codes "initialize")) none ∷ [])
    × (initialized.0
        ≡ record new_client { handshake_state = completed; features = initialized.0.features })
    × (is_supported initialized.0 (codes "supportsStepBack")
        ≡ is_supported new_client (codes "supportsStepBack")
          || (is_in (codes "supportsStepBack") feature_names
              && get_bool
                  (at_name
                    (at_name (answer_to (codes "initialize")) (codes "body"))
                    (codes "supportsStepBack"))
                  false))
on_message_initialize_example =
    on_message_initialize integer_json new_client (answer_to (codes "initialize"))
      (codes "supportsStepBack") tt is_initialize_answer

on_response_forgets_example :
    (on_response integer_json waiting evaluate_response
      (answer_to (codes "evaluate"))).0.in_flight_requests
    ≡ waiting.in_flight_requests
on_response_forgets_example =
    on_response_forgets integer_json waiting evaluate_response (answer_to (codes "evaluate")) refl
