-- ===== src/Protocol/Responses.antt =====
-- dap/dap.hpp and dap/dap.cpp: the responses with a body.
pub mod Bodies
pub mod RoundTrip
use wxdap.Base.{ℕ, Bool, true, false, Option, none, some, List, [], Bytes, codes}
use wxdap.Decimal.{ℤ, pos, negsuc}
use wxdap.Json.{
  CJson, Json, get_string, get_number, get_integer, get_bool, at_name, get_string_array,
}
use wxdap.Json.Build.{
  create_array, create_object, add_string, add_int, add_bool, add_object, add_item, add_strings,
  add_json,
}
use wxdap.Json.Arrays.{items_to, list_from}
use wxdap.Protocol.{
  Response, Source, Breakpoint, response_to, response_from, read_string, read_int, read_bool,
  read_number, not_found,
}
use wxdap.Protocol.Structs.{source_to, source_from, breakpoint_to, breakpoint_from}
use wxdap.Protocol.Requests.{SourceResponse, EvaluateResponse}
use wxdap.Protocol.Items.{
  Thread, StackFrame, Scope, Variable, BreakpointLocation, thread_to, thread_from, stack_frame_to,
  stack_frame_from, scope_to, scope_from, variable_to, variable_from, location_to, location_from,
}

-- What each class adds to `Response`; `empty` is every class that adds nothing that is sent. The
-- responses to "source" and "evaluate" have records of their own.
pub data ResponseBody : Type 0 where
  empty : ResponseBody
  threads : List Thread → ResponseBody
  stack_frames : List StackFrame → ResponseBody
  scopes : List Scope → ResponseBody
  variables : List Variable → ResponseBody
  breakpoints : List Breakpoint → ResponseBody
  locations : List BreakpointLocation → ResponseBody
  continued : Bool → ResponseBody
  terminal : ℤ → ResponseBody

pub data ResponseClass : Type 0 where
  empty_response threads_response stack_trace_response scopes_response variables_response :
      ResponseClass
  set_breakpoints_response breakpoint_locations_response continue_response : ResponseClass
  run_in_terminal_response : ResponseClass

abbrev pub response_class_of : ResponseBody → ResponseClass
response_class_of empty = empty_response
response_class_of (threads ts) = threads_response
response_class_of (stack_frames fs) = stack_trace_response
response_class_of (scopes ss) = scopes_response
response_class_of (variables vs) = variables_response
response_class_of (breakpoints bs) = set_breakpoints_response
response_class_of (locations ls) = breakpoint_locations_response
response_class_of (continued all) = continue_response
response_class_of (terminal process_id) = run_in_terminal_response

pub record ResponseMessage : Type 0 where
  pub base : Response
  pub body : ResponseBody

module _ (c : CJson) where
  open c use {Double, of_int, to_bool}

  -- A body whose one field is an array.
  abbrev array_body : Bytes → Json Double → Json Double
  array_body name arr = add_item c (create_object c) name arr

  abbrev pub threads_body : List Thread → Json Double
  threads_body ts = array_body (codes "threads") (items_to c (thread_to c) (create_array c) ts)

  abbrev pub stack_trace_body : List StackFrame → Json Double
  stack_trace_body fs =
      array_body (codes "stackFrames") (items_to c (stack_frame_to c) (create_array c) fs)

  abbrev pub scopes_body : List Scope → Json Double
  scopes_body ss = array_body (codes "scopes") (items_to c (scope_to c) (create_array c) ss)

  abbrev pub variables_body : List Variable → Json Double
  variables_body vs =
      array_body (codes "variables") (items_to c (variable_to c) (create_array c) vs)

  abbrev pub set_breakpoints_body : List Breakpoint → Json Double
  set_breakpoints_body bs =
      array_body (codes "breakpoints") (items_to c (breakpoint_to c) (create_array c) bs)

  abbrev pub breakpoint_locations_body : List BreakpointLocation → Json Double
  breakpoint_locations_body ls =
      array_body (codes "breakpoints") (items_to c (location_to c) (create_array c) ls)

  abbrev pub continue_body : Bool → Json Double
  continue_body all = add_bool c (create_object c) (codes "allThreadsContinued") all

  abbrev pub run_in_terminal_body : ℤ → Json Double
  run_in_terminal_body process_id = add_int c (create_object c) (codes "processId") process_id

  unfoldable pub response_body_to : ResponseBody → Option (Json Double)
  response_body_to empty = none
  response_body_to (threads ts) = some (threads_body ts)
  response_body_to (stack_frames fs) = some (stack_trace_body fs)
  response_body_to (scopes ss) = some (scopes_body ss)
  response_body_to (variables vs) = some (variables_body vs)
  response_body_to (breakpoints bs) = some (set_breakpoints_body bs)
  response_body_to (locations ls) = some (breakpoint_locations_body ls)
  response_body_to (continued all) = some (continue_body all)
  response_body_to (terminal process_id) = some (run_in_terminal_body process_id)

  unfoldable pub add_body : Json Double → Option (Json Double) → Json Double
  add_body j none = j
  add_body j (some body) = add_item c j (codes "body") body

  -- `To`
  unfoldable pub response_message_to : ResponseMessage → Json Double
  response_message_to r = add_body (response_to c r.base) (response_body_to r.body)

  abbrev pub threads_body_from : Json Double → ResponseBody
  threads_body_from body = threads (list_from (thread_from c) (at_name body (codes "threads")))

  abbrev pub stack_trace_body_from : Json Double → ResponseBody
  stack_trace_body_from body =
      stack_frames (list_from (stack_frame_from c) (at_name body (codes "stackFrames")))

  abbrev pub scopes_body_from : Json Double → ResponseBody
  scopes_body_from body = scopes (list_from (scope_from c) (at_name body (codes "scopes")))

  abbrev pub variables_body_from : Json Double → ResponseBody
  variables_body_from body =
      variables (list_from (variable_from c) (at_name body (codes "variables")))

  abbrev pub set_breakpoints_body_from : Json Double → ResponseBody
  set_breakpoints_body_from body =
      breakpoints (list_from (breakpoint_from c) (at_name body (codes "breakpoints")))

  abbrev pub breakpoint_locations_body_from : Json Double → ResponseBody
  breakpoint_locations_body_from body =
      locations (list_from (location_from c) (at_name body (codes "breakpoints")))

  -- The flag is read with `GetNumber`, and the `double` is converted to `bool`.
  abbrev pub continue_body_from : Json Double → ResponseBody
  continue_body_from body =
      continued
        (to_bool (get_number (at_name body (codes "allThreadsContinued")) (of_int not_found)))

  abbrev pub run_in_terminal_body_from : Json Double → ResponseBody
  run_in_terminal_body_from body = terminal (read_number c body (codes "processId") not_found)

  unfoldable pub response_body_from : ResponseClass → Json Double → ResponseBody
  response_body_from empty_response body = empty
  response_body_from threads_response body = threads_body_from body
  response_body_from stack_trace_response body = stack_trace_body_from body
  response_body_from scopes_response body = scopes_body_from body
  response_body_from variables_response body = variables_body_from body
  response_body_from set_breakpoints_response body = set_breakpoints_body_from body
  response_body_from breakpoint_locations_response body = breakpoint_locations_body_from body
  response_body_from continue_response body = continue_body_from body
  response_body_from run_in_terminal_response body = run_in_terminal_body_from body

  -- `From` of an object of the class.
  unfoldable pub response_message_from : ResponseClass → Json Double → ResponseMessage
  response_message_from k j = record {
    base = response_from c j;
    body = response_body_from k (at_name j (codes "body"));
  }

  unfoldable pub source_response_to : SourceResponse → Json Double
  source_response_to r =
      let body = add_string c (create_object c) (codes "content") r.content in
      add_item c (response_to c r.base) (codes "body")
        (add_string c body (codes "mimeType") r.mime_type)

  unfoldable pub evaluate_response_to : EvaluateResponse → Json Double
  evaluate_response_to r =
      let b1 = add_string c (create_object c) (codes "result") r.result in
      let b2 = add_string c b1 (codes "type") r.type in
      add_item c (response_to c r.base) (codes "body")
        (add_int c b2 (codes "variablesReference") r.variables_reference)
