-- ===== src/Examples/Bodies.antt =====
-- Responses, arguments and arrays with their values.
use wxdap.Base.{◌≡◌, refl, true, false, none, some, [], ◌∷◌, Bytes, codes, arith}
use wxdap.Decimal.{ℤ, pos}
use wxdap.Examples.Values.{integer_json}
use wxdap.Json.{Node, cons, nil, node, is_string, is_array, children, get_string}
use wxdap.Json.Arrays.{list_from, list_from_lem, read_nodes}
use wxdap.Protocol.{Response, Request, Source}
use wxdap.Protocol.Items.{StackFrame}
use wxdap.Protocol.Modules.{
  Module, ModuleEvent, module_event_to, module_event_from, module_event_from-to,
}
use wxdap.Protocol.Others.{cancel, other_request_to, other_class_of}
use wxdap.Protocol.Others.RoundTrip.{request_message_from-other_request_to, other_read}
use wxdap.Protocol.Reading.{request_message_from, has_key}
use wxdap.Protocol.Reading.Environments.{IsEnvironment}
use wxdap.Protocol.Requests.{ClientRequest, Environment, launch, list}
use wxdap.Protocol.Responses.{
  ResponseMessage, stack_frames, response_class_of, response_message_to, response_message_from,
}
use wxdap.Protocol.Responses.Bodies.{body_read}
use wxdap.Protocol.Responses.RoundTrip.{response_message_from-to}
use wxdap.Protocol.Sent.{base_of, client_request_to}
use wxdap.Protocol.Sent.Expected.{request_class_of, arguments_read}
use wxdap.Protocol.Sent.Served.{request_message_from-to}

abbrev main_source : Source
main_source = record { name = codes "main.c"; path = codes "/src/main.c"; source_reference = pos 0 }

abbrev frame : ℤ → Bytes → ℤ → StackFrame
frame id name line = record { id = id; name = name; source = main_source; line = line }

abbrev answered : Response
answered = record {
  base = record { seq = pos 9; type = codes "response" };
  request_seq = pos 4;
  success = true;
  message = [];
  command = codes "stackTrace";
}

abbrev two_frames : ResponseMessage
two_frames = record {
  base = answered;
  body =
      stack_frames
        (frame (pos 1) (codes "f") (pos 12) ∷ frame (pos 2) (codes "main") (pos 40) ∷ []);
}

response_message_from-to_example :
    response_message_from integer_json
      (response_class_of two_frames.body)
      (response_message_to integer_json two_frames)
    ≡ record { base = two_frames.base; body = body_read two_frames.body }
response_message_from-to_example =
    response_message_from-to integer_json two_frames (refl, refl, refl, refl, refl)
      ((refl, refl, refl, (refl, refl, refl)), ((refl, refl, refl, (refl, refl, refl)), tt))

abbrev program_env : Environment
program_env = record { format = list; vars = (codes "A", codes "1=2") ∷ (codes "B", []) ∷ [] }

program_env-IsEnvironment : IsEnvironment integer_json program_env
unfolding has_key
program_env-IsEnvironment =
    (((omega arith, tt), refl, ((omega arith, tt), refl, tt)), (refl, (refl, tt)))

abbrev launch_request : ClientRequest
launch_request = record {
  seq = pos 3;
  arguments = launch (codes "/bin/ls") (codes "-l" ∷ codes "/" ∷ []) (codes "/tmp") program_env;
}

request_message_from-to_example :
    request_message_from integer_json
      (request_class_of launch_request.arguments)
      (client_request_to integer_json launch_request)
    ≡ (base_of launch_request, arguments_read launch_request.arguments)
request_message_from-to_example =
    request_message_from-to integer_json launch_request refl
      (refl, (refl, (refl, tt)), refl, program_env-IsEnvironment)

abbrev cancel_base : Request
cancel_base = record {
  base = record { seq = pos 5; type = codes "request" };
  command = codes "cancel";
}

request_message_from-other_request_to_example :
    request_message_from integer_json
      (other_class_of (cancel (pos 4)))
      (other_request_to integer_json cancel_base (cancel (pos 4)))
    ≡ (cancel_base, other_read (cancel (pos 4)))
request_message_from-other_request_to_example =
    request_message_from-other_request_to integer_json cancel_base (cancel (pos 4))
      (refl, refl, refl) tt

abbrev libc : Module
libc = record {
  id = codes "7";
  name = codes "libc.so.6";
  path = codes "/lib/libc.so.6";
  is_optimized = true;
  is_user_code = false;
  version = [];
  symbol_status = codes "Symbols not found";
  symbol_file_path = [];
  date_time_stamp = [];
  address_range = [];
}

abbrev libc_loaded : ModuleEvent
libc_loaded = record {
  base = record { base = record { seq = pos 11; type = codes "event" }; event = codes "module" };
  reason = codes "new";
  module_of = libc;
}

module_event_from-to_example :
    module_event_from integer_json (module_event_to integer_json libc_loaded) ≡ libc_loaded
module_event_from-to_example =
    module_event_from-to integer_json libc_loaded (refl, refl, refl) refl
      (refl, refl, refl, refl, refl, refl, refl, refl)

abbrev text_node : Bytes → Node ℤ
text_node s = node is_string none s (pos 0) (pos 0) nil

abbrev texts : Node ℤ
texts =
    node is_array none [] (pos 0) (pos 0)
      (cons (text_node (codes "a")) (cons (text_node (codes "b")) nil))

list_from_lem_example :
    list_from (λ x. get_string x []) (some texts)
    ≡ read_nodes (λ x. get_string x []) (children texts)
list_from_lem_example = list_from_lem (λ x. get_string x []) texts
