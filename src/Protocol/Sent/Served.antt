-- ===== src/Protocol/Sent/Served.antt =====
-- A request of the client, as `From` of its class reads it on the other side.
use wxdap.Base.{suc, ◌≡◌, refl, Bool, true, some, [], Bytes, codes, ap, ap₂}
use wxdap.Decimal.{pos, negsuc}
use wxdap.Json.{CJson, cons, nil, IsInt, get_string, get_integer, at_name, get_bool, get_number}
use wxdap.Json.Building.{object, object_node, bool_node}
use wxdap.Json.Arrays.Filled.{get_string_array-string_nodes, list_from-array_same}
use wxdap.Protocol.{not_found, Request}
use wxdap.Protocol.Structs.RoundTrip.{read_bool-bool_node, source_from-object}
use wxdap.Protocol.Arguments.{locations_in}
use wxdap.Protocol.Requests.{
  Arguments, initialize, set_breakpoints, configuration_done, threads, launch, attach, scopes,
  stack_trace, next, continue, step_in, step_out, set_function_breakpoints, variables_of, pause,
  breakpoint_locations, source_of, evaluate,
}
use wxdap.Protocol.Reading.{
  RequestArguments, RequestClass, initialize_request, set_breakpoints_request, simple_request,
  launch_request, attach_request, scopes_request, stack_trace_request, pause_request, next_request,
  step_request, continue_request, set_function_breakpoints_request, variables_request,
  breakpoint_locations_request, source_request, evaluate_request, arguments_from,
  request_message_from, initialize_from, launch_from, environment_from, source_breakpoint_from,
  function_breakpoint_from, format_from,
}
use wxdap.Protocol.Reading as Read
use wxdap.Protocol.Sent.Written.{
  source_breakpoint_nodes, function_breakpoint_nodes, argument_nodes, with_arguments,
}
use wxdap.Json.Reading.{get_bool_default}
use wxdap.Json.{get_number}
use wxdap.Protocol.Sent.Locations.{breakpoint_locations_from-node}
use wxdap.Protocol.Sent.Parts.{
  initialize_from-object, source_breakpoint_from-object, function_breakpoint_from-object,
  IsSourceBreakpoint, IsFunctionBreakpoint, launch_from-object, format_from-object,
}
use wxdap.Base.{zero, suc, ◌∙◌}
use wxdap.Protocol.Sent.Received.{
  request_nodes, request_to-object, request_from-Has, IsRequest, command_of-IsKept,
}
use wxdap.Protocol.Sent.{base_of, client_request_to, add_arguments}
use wxdap.Protocol.Sent.Written.{with_arguments, add_arguments-object}
use wxdap.Protocol.Reading.{request_message_from}
use wxdap.Protocol.Requests.{ClientRequest}
use wxdap.Protocol.{Request}
use wxdap.Protocol.Sent.Expected.{request_class_of, arguments_read, IsSent, file_source}

module _ (c : CJson) where
  open c use {Double, of_int, to_int-of_int}

  read_bool_true : (name : Bytes) (b : Bool) → get_bool (some (bool_node c name b)) true ≡ true
  read_bool_true name b = get_bool_default (some (bool_node c name b))

  arguments_from-object :
      (key : Bytes) (a : Arguments)
      → IsSent c a
      → arguments_from c (request_class_of a) (some (object_node c key (argument_nodes c a)))
        ≡ arguments_read a
  unfolding arguments_from at_name get_string get_integer
  arguments_from-object key (initialize a) h = ap Read.initialize (initialize_from-object c key a h)
  arguments_from-object key (set_breakpoints breakpoints path name) (h, hn, hp) =
      ap₂ Read.set_breakpoints
        (source_from-object c (codes "source") (file_source path name) (refl, hn, hp))
        (list_from-array_same c (source_breakpoint_from c) (source_breakpoint_nodes c)
          (IsSourceBreakpoint c) (source_breakpoint_from-object c) _ breakpoints h)
  arguments_from-object key configuration_done h = refl
  arguments_from-object key threads h = refl
  arguments_from-object key (launch program args cwd env) (p, a, w, h) =
      ap Read.launch (launch_from-object c key program args cwd env p a w h)
  arguments_from-object key (attach args) h =
      ap₂ Read.attach (to_int-of_int not_found refl)
        (get_string_array-string_nodes c (codes "arguments") args h)
  arguments_from-object key (scopes frame_id) h =
      unfold get_number in ap Read.scopes (to_int-of_int frame_id h)
  arguments_from-object key (stack_trace thread_id levels start_frame) h =
      ap Read.stack_trace (to_int-of_int thread_id h)
  arguments_from-object key (next thread_id single granularity) (h, k) = λ i.
      Read.next (to_int-of_int thread_id h i)
        (read_bool-bool_node c (codes "singleThread") single i) (k i)
  arguments_from-object key (continue thread_id single) h = λ i.
      Read.continue (to_int-of_int thread_id h i)
        (read_bool-bool_node c (codes "singleThread") single i)
  arguments_from-object key (step_in thread_id single) h = λ i.
      Read.step (to_int-of_int thread_id h i) (read_bool_true (codes "singleThread") single i)
        (c.through_lem (codes "line") refl i)
  arguments_from-object key (step_out thread_id single) h = λ i.
      Read.step (to_int-of_int thread_id h i) (read_bool_true (codes "singleThread") single i)
        (c.through_lem (codes "line") refl i)
  arguments_from-object key (set_function_breakpoints breakpoints) h =
      ap Read.set_function_breakpoints (
        list_from-array_same c (function_breakpoint_from c) (function_breakpoint_nodes c)
          (IsFunctionBreakpoint c) (function_breakpoint_from-object c) _ breakpoints h)
  arguments_from-object key (variables_of reference count hex) (hr, hc) = λ i.
      Read.variables_of (to_int-of_int reference hr i) (to_int-of_int count hc i)
        (format_from-object c hex i)
  arguments_from-object key (pause thread_id) h = ap Read.pause (to_int-of_int thread_id h)
  arguments_from-object key (breakpoint_locations path line end_line) h =
      ap Read.breakpoint_locations (
        breakpoint_locations_from-node c (some key) (locations_in path line end_line) refl refl
          (refl, c.through_lem [] refl, h))
  arguments_from-object key (source_of source (pos zero)) (hs, h) =
      ap (λ s. Read.source_of s (pos 0)) (source_from-object c (codes "source") source hs)
  arguments_from-object key (source_of source (pos (suc n))) (hs, h) =
      ap₂ Read.source_of (source_from-object c (codes "source") source hs)
        (to_int-of_int (pos (suc n)) h)
  arguments_from-object key (source_of source (negsuc n)) (hs, h) =
      ap (λ s. Read.source_of s (pos 0)) (source_from-object c (codes "source") source hs)
  arguments_from-object key (evaluate (pos zero) expression hex context) (h, e, k) =
      λ i. Read.evaluate not_found (e i) (format_from-object c hex i) (k i)
  arguments_from-object key (evaluate (pos (suc n)) expression hex context) (h, e, k) =
      λ i. Read.evaluate (to_int-of_int (pos (suc n)) h i) (e i) (format_from-object c hex i) (k i)
  arguments_from-object key (evaluate (negsuc n) expression hex context) (h, e, k) =
      λ i. Read.evaluate not_found (e i) (format_from-object c hex i) (k i)

  -- The request with the arguments behind its three fields.
  read_with :
      (r : Request) (a : Arguments)
      → IsRequest c r
      → IsSent c a
      → request_message_from c (request_class_of a) (
          object c
            (request_nodes c r (cons (object_node c (codes "arguments") (argument_nodes c a)) nil)))
        ≡ (r, arguments_read a)
  unfolding request_message_from at_name
  read_with r a h ha = λ i. (
    request_from-Has c r (cons (object_node c (codes "arguments") (argument_nodes c a)) nil) h i,
    arguments_from-object (codes "arguments") a ha i,
  )

  read_without :
      (r : Request)
      → IsRequest c r
      → request_message_from c simple_request (object c (request_nodes c r nil))
        ≡ (r, Read.no_arguments)
  unfolding request_message_from arguments_from
  read_without r h = λ i. (request_from-Has c r nil h i, Read.no_arguments)

  read_arguments :
      (r : Request) (a : Arguments)
      → IsRequest c r
      → IsSent c a
      → request_message_from c
          (request_class_of a)
          (object c (with_arguments c (request_nodes c r nil) a))
        ≡ (r, arguments_read a)
  read_arguments r configuration_done h ha = read_without r h
  read_arguments r threads h ha = read_without r h
  read_arguments r a h ha = read_with r a h ha

  -- Every request of the client, written by `To` with its arguments, is read back by `From` of its class
  -- with its number, its command and its arguments as they were, each list in order and with every
  -- element, but for these: the lines of a breakpointLocations request are lost, the flag of a step
  -- request is read as true, an environment is read only if it is sent as a list, the first frame and
  -- the number of frames of a stackTrace request are not sent, and of a frame or a reference that is
  -- not positive no more is read than that; provided that the numbers that are read are of 32 bits,
  -- that the source to load has no negative reference, that the names of an environment that is
  -- sent as a list are distinct and hold no `=`, and that each text is read as it was stored, as ASCII
  -- without a NUL is.
  pub request_message_from-to :
      (r : ClientRequest)
      → IsInt r.seq
      → IsSent c r.arguments
      → request_message_from c (request_class_of r.arguments) (client_request_to c r)
        ≡ (base_of r, arguments_read r.arguments)
  unfolding client_request_to
  request_message_from-to r h ha =
      ap (request_message_from c (request_class_of r.arguments)) (
        ap (λ j. add_arguments c j r.arguments) (request_to-object c (base_of r))
        ∙ add_arguments-object c (request_nodes c (base_of r) nil) r.arguments)
      ∙ read_arguments (base_of r) r.arguments
          (h, c.through_lem (codes "request") refl, command_of-IsKept c r.arguments) ha
