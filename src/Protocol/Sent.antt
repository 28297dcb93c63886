-- ===== src/Protocol/Sent.antt =====
-- dap/dap.cpp: the Json of a request that the client makes.
pub mod Received
pub mod Written
pub mod Parts
pub mod Expected
pub mod Served
pub mod Locations
pub mod Delivery
use wxdap.Base.{Bytes, codes}
use wxdap.Json.{CJson, Json}
use wxdap.Json.Build.{create_object, add_int, add_object, add_json}
use wxdap.Protocol.{Request, request_to}
use wxdap.Protocol.Arguments.{
  command_of, locations_in, initialize_to, launch_to, attach_arguments_to, format_to,
  step_arguments_to, next_arguments_to, breakpoint_locations_to, source_arguments_to, evaluate_to,
  variables_to, set_breakpoints_to, set_function_breakpoints_to,
}
use wxdap.Protocol.Requests.{
  Arguments, ClientRequest, initialize, set_breakpoints, configuration_done, threads, launch,
  attach, scopes, stack_trace, next, continue, step_in, step_out, set_function_breakpoints,
  variables_of, pause, breakpoint_locations, source_of, evaluate,
}
use wxdap.Base.{ℕ}
use wxdap.Decimal.{ℤ}
use wxdap.Json.Build.{add_bool}

-- The part of the base class `Request`.
abbrev pub base_of : ClientRequest → Request
base_of r = record {
  base = record { seq = r.seq; type = codes "request" };
  command = command_of r.arguments;
}

module _ (c : CJson) where
  open c use {Double}

  -- `json.AddObject("arguments", arguments.To())`, or `json.Add` in the classes that use it; the
  -- first frame and the number of frames of `StackTraceArguments` are not written.
  unfoldable pub add_arguments : Json Double → Arguments → Json Double
  add_arguments j (initialize a) = add_object c j (codes "arguments") (initialize_to c a)
  add_arguments j (set_breakpoints breakpoints path name) =
      add_object c j (codes "arguments") (set_breakpoints_to c breakpoints path name)
  add_arguments j configuration_done = j
  add_arguments j threads = j
  add_arguments j (launch program args cwd env) =
      add_object c j (codes "arguments") (launch_to c program args cwd env)
  add_arguments j (attach args) = add_object c j (codes "arguments") (attach_arguments_to c args)
  add_arguments j (scopes frame_id) =
      add_json c j (codes "arguments") (add_int c (create_object c) (codes "frameId") frame_id)
  add_arguments j (stack_trace thread_id levels start_frame) =
      add_json c j (codes "arguments") (add_int c (create_object c) (codes "threadId") thread_id)
  add_arguments j (next thread_id single granularity) =
      add_object c j (codes "arguments") (next_arguments_to c thread_id single granularity)
  add_arguments j (continue thread_id single) = add_object c j (codes "arguments") (
      add_bool c (add_int c (create_object c) (codes "threadId") thread_id) (codes "singleThread")
        single)
  add_arguments j (step_in thread_id single) =
      add_object c j (codes "arguments") (step_arguments_to c thread_id single)
  add_arguments j (step_out thread_id single) =
      add_object c j (codes "arguments") (step_arguments_to c thread_id single)
  add_arguments j (set_function_breakpoints breakpoints) =
      add_object c j (codes "arguments") (set_function_breakpoints_to c breakpoints)
  add_arguments j (variables_of reference count hex) =
      add_json c j (codes "arguments") (variables_to c reference count hex)
  add_arguments j (pause thread_id) =
      add_json c j (codes "arguments") (add_int c (create_object c) (codes "threadId") thread_id)
  add_arguments j (breakpoint_locations path line end_line) =
      add_object c j (codes "arguments")
        (breakpoint_locations_to c (locations_in path line end_line))
  add_arguments j (source_of source reference) =
      add_object c j (codes "arguments") (source_arguments_to c source reference)
  add_arguments j (evaluate frame_id expression hex context) =
      add_object c j (codes "arguments") (evaluate_to c frame_id expression hex context)

  unfoldable pub client_request_to : ClientRequest → Json Double
  unfolding add_arguments
  client_request_to r = add_arguments (request_to c (base_of r)) r.arguments
