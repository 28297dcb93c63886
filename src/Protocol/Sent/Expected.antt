-- ===== src/Protocol/Sent/Expected.antt =====
-- What the other side has of each request of the client, by its class.
use wxdap.Base.{suc, true, false, Bytes, codes, All}
use wxdap.Decimal.{ℤ, pos}
use wxdap.Json.{CJson, IsInt}
use wxdap.Json.Building.{IsKept}
use wxdap.Protocol.Sent.Parts.{IsInitialize, IsSourceBreakpoint, IsFunctionBreakpoint}
use wxdap.Protocol.{Source, not_found}
use wxdap.Protocol.Structs.RoundTrip.{IsSource}
use wxdap.Protocol.Arguments.{locations_in}
use wxdap.Protocol.Requests.{
  Arguments, initialize, set_breakpoints, configuration_done, threads, launch, attach, scopes,
  stack_trace, next, continue, step_in, step_out, set_function_breakpoints, variables_of, pause,
  breakpoint_locations, source_of, evaluate,
}
use wxdap.Protocol.Reading.{
  RequestArguments, RequestClass, initialize_request, set_breakpoints_request, simple_request,
  launch_request, attach_request, scopes_request, stack_trace_request, pause_request, next_request,
  step_request, continue_request, set_function_breakpoints_request, variables_request,
  breakpoint_locations_request, source_request, evaluate_request, arguments_from,
  request_message_from, initialize_from, launch_from, environment_from, source_breakpoint_from,
  function_breakpoint_from, format_from,
}
use wxdap.Protocol.Reading as Read
use wxdap.Protocol.Reading.Environments.{environment_read, IsEnvironment}

-- The class that the other side reads the request with.
abbrev pub request_class_of : Arguments → RequestClass
request_class_of (initialize a) = initialize_request
request_class_of (set_breakpoints breakpoints path name) = set_breakpoints_request
request_class_of configuration_done = simple_request
request_class_of threads = simple_request
request_class_of (launch program args cwd env) = launch_request
request_class_of (attach args) = attach_request
request_class_of (scopes frame_id) = scopes_request
request_class_of (stack_trace thread_id levels start_frame) = stack_trace_request
request_class_of (next thread_id single granularity) = next_request
request_class_of (continue thread_id single) = continue_request
request_class_of (step_in thread_id single) = step_request
request_class_of (step_out thread_id single) = step_request
request_class_of (set_function_breakpoints breakpoints) = set_function_breakpoints_request
request_class_of (variables_of reference count hex) = variables_request
request_class_of (pause thread_id) = pause_request
request_class_of (breakpoint_locations path line end_line) = breakpoint_locations_request
request_class_of (source_of source reference) = source_request
request_class_of (evaluate frame_id expression hex context) = evaluate_request

abbrev pub positive_or : ℤ → ℤ → ℤ
positive_or default (pos (suc n)) = pos (suc n)
positive_or default _ = default

abbrev pub file_source : Bytes → Bytes → Source
file_source path name = record { name = name; path = path; source_reference = pos 0 }

-- What the other side has of the arguments.
abbrev pub arguments_read : Arguments → RequestArguments
arguments_read (initialize a) = Read.initialize a
arguments_read (set_breakpoints breakpoints path name) =
    Read.set_breakpoints (file_source path name) breakpoints
arguments_read configuration_done = Read.no_arguments
arguments_read threads = Read.no_arguments
arguments_read (launch program args cwd env) = Read.launch (record {
  no_debug = false;
  program = program;
  args = args;
  cwd = cwd;
  env = environment_read env;
  stop_at_main = true;
})
arguments_read (attach args) = Read.attach not_found args
arguments_read (scopes frame_id) = Read.scopes frame_id
arguments_read (stack_trace thread_id levels start_frame) = Read.stack_trace thread_id
arguments_read (next thread_id single granularity) = Read.next thread_id single granularity
arguments_read (continue thread_id single) = Read.continue thread_id single
arguments_read (step_in thread_id single) = Read.step thread_id true (codes "line")
arguments_read (step_out thread_id single) = Read.step thread_id true (codes "line")
arguments_read (set_function_breakpoints breakpoints) = Read.set_function_breakpoints breakpoints
arguments_read (variables_of reference count hex) = Read.variables_of reference count hex
arguments_read (pause thread_id) = Read.pause thread_id
arguments_read (breakpoint_locations path line end_line) =
    Read.breakpoint_locations (locations_in path not_found not_found)
arguments_read (source_of source reference) = Read.source_of source (positive_or (pos 0) reference)
arguments_read (evaluate frame_id expression hex context) =
    Read.evaluate (positive_or not_found frame_id) expression hex context

module _ (c : CJson) where
  -- Every number that is read is of 32 bits, the source that is loaded has no negative reference, and
  -- the names of an environment that is sent as a list are distinct and hold no `=`; and each text is
  -- read as it is stored.
  abbrev pub IsSent : Arguments → Type 0
  IsSent (initialize a) = IsInitialize c a
  IsSent (set_breakpoints breakpoints path name) =
      All (IsSourceBreakpoint c) breakpoints × IsKept c name × IsKept c path
  IsSent configuration_done = Unit
  IsSent threads = Unit
  IsSent (launch program args cwd env) =
      IsKept c program × All (IsKept c) args × IsKept c cwd × IsEnvironment c env
  IsSent (attach args) = All (IsKept c) args
  IsSent (scopes frame_id) = IsInt frame_id
  IsSent (stack_trace thread_id levels start_frame) = IsInt thread_id
  IsSent (next thread_id single granularity) = IsInt thread_id × IsKept c granularity
  IsSent (continue thread_id single) = IsInt thread_id
  IsSent (step_in thread_id single) = IsInt thread_id
  IsSent (step_out thread_id single) = IsInt thread_id
  IsSent (set_function_breakpoints breakpoints) = All (IsFunctionBreakpoint c) breakpoints
  IsSent (variables_of reference count hex) = IsInt reference × IsInt count
  IsSent (pause thread_id) = IsInt thread_id
  IsSent (breakpoint_locations path line end_line) = IsKept c path
  IsSent (source_of source reference) = IsSource c source × IsInt reference
  IsSent (evaluate frame_id expression hex context) =
      IsInt frame_id × IsKept c expression × IsKept c context
