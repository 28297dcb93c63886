-- ===== src/Protocol/Reading.antt =====
-- dap/dap.cpp: `From` of the arguments of the requests, as a server that is made with the library
-- reads them, one constructor for each class.
pub mod Environments
use wxdap.Base.{
  ℕ, Bool, true, false, Option, none, some, List, [], ◌∷◌, ◌++◌, Bytes, codes, bytes_eq,
  if◌then◌else◌,
}
use wxdap.Decimal.{ℤ, pos, negsuc}
use wxdap.Json.{
  CJson, Json, get_string, get_number, get_integer, get_bool, at_name, get_string_array, is_array?,
}
use wxdap.Json.Arrays.{list_from}
use wxdap.Text.{before_first, after_first, find_char}
use wxdap.Protocol.{
  Source, Request, request_from, read_string, read_int, read_bool, read_number, not_found,
}
use wxdap.Protocol.Structs.{source_from}
use wxdap.Protocol.Requests.{SourceBreakpoint, FunctionBreakpoint, InitializeArguments}
use wxdap.Protocol.Arguments.{BreakpointLocationsArguments, breakpoint_locations_from}

-- The map `vars`: its content, in the order in which it was inserted.
abbrev pub Vars : Type 0
Vars = List (Bytes × Bytes)

pub record LaunchArguments : Type 0 where
  pub no_debug : Bool
  pub program : Bytes
  pub args : List Bytes
  pub cwd : Bytes
  pub env : Vars
  pub stop_at_main : Bool

pub data RequestArguments : Type 0 where
  initialize : InitializeArguments → RequestArguments
  set_breakpoints : Source → List SourceBreakpoint → RequestArguments
  no_arguments : RequestArguments
  launch : LaunchArguments → RequestArguments
  attach : (pid : ℤ) → (arguments : List Bytes) → RequestArguments
  scopes : (frame_id : ℤ) → RequestArguments
  stack_trace pause : (thread_id : ℤ) → RequestArguments
  next step : (thread_id : ℤ) → (single_thread : Bool) → (granularity : Bytes) → RequestArguments
  continue : (thread_id : ℤ) → (single_thread : Bool) → RequestArguments
  set_function_breakpoints : List FunctionBreakpoint → RequestArguments
  variables_of : (reference : ℤ) → (count : ℤ) → (hex : Bool) → RequestArguments
  breakpoint_locations : BreakpointLocationsArguments → RequestArguments
  source_of : Source → (reference : ℤ) → RequestArguments
  evaluate :
      (frame_id : ℤ) → (expression : Bytes) → (hex : Bool) → (context : Bytes) → RequestArguments
  cancel : (request_id : ℤ) → RequestArguments
  disconnect : (restart terminate_debuggee : Bool) → RequestArguments
  run_in_terminal : (kind title : Bytes) → (args : List Bytes) → RequestArguments

pub data RequestClass : Type 0 where
  initialize_request set_breakpoints_request simple_request launch_request attach_request :
      RequestClass
  scopes_request stack_trace_request pause_request next_request step_request : RequestClass
  continue_request set_function_breakpoints_request variables_request : RequestClass
  breakpoint_locations_request source_request evaluate_request cancel_request : RequestClass
  disconnect_request run_in_terminal_request : RequestClass

unfoldable pub has_key : Bytes → Vars → Bool
has_key key [] = false
has_key key ((name, value) ∷ vars) = if bytes_eq key name then true else has_key key vars

-- `vars.insert({ key, value })`: a key that is there keeps its value.
unfoldable pub insert_var : Vars → Bytes → Bytes → Vars
unfolding has_key
insert_var vars key value = if has_key key vars then vars else vars ++ (key, value) ∷ []

-- The loop of `Environment::From` over the strings: one without `=` is left out.
unfoldable pub insert_lines : Vars → List Bytes → Vars
unfolding insert_var
insert_lines vars [] = vars
insert_lines vars (str ∷ strings) = elim (find_char b'=' str) [
  | none ↦ insert_lines vars strings
  | some at ↦ insert_lines (insert_var vars (before_first str b'=') (after_first str b'=')) strings
]

module _ (c : CJson) where
  open c use {Double, of_int}

  unfoldable pub environment_from : Json Double → Vars
  unfolding is_array? insert_lines
  environment_from j =
      if is_array? j then insert_lines [] (list_from (λ x. get_string x []) j) else []

  unfoldable pub initialize_from : Json Double → InitializeArguments
  initialize_from j = record {
    client_id = read_string c j (codes "clientID");
    client_name = read_string c j (codes "clientName");
    adapter_id = read_string c j (codes "adapterID");
    locale = read_string c j (codes "locale");
    lines_start_at1 = read_bool c j (codes "linesStartAt1");
    columns_start_at1 = read_bool c j (codes "columnsStartAt1");
    supports_invalidated_event = read_bool c j (codes "supportsInvalidatedEvent");
    path_format = read_string c j (codes "pathFormat");
  }

  unfoldable pub source_breakpoint_from : Json Double → SourceBreakpoint
  source_breakpoint_from j = record {
    line = get_integer (at_name j (codes "line")) not_found;
    condition = read_string c j (codes "condition");
  }

  unfoldable pub function_breakpoint_from : Json Double → FunctionBreakpoint
  function_breakpoint_from j = record {
    name = read_string c j (codes "name");
    condition = read_string c j (codes "condition");
  }

  unfoldable pub launch_from : Json Double → LaunchArguments
  launch_from j = record {
    no_debug = read_bool c j (codes "noDebug");
    program = read_string c j (codes "program");
    args = get_string_array (at_name j (codes "args"));
    cwd = read_string c j (codes "cwd");
    env = environment_from (at_name j (codes "env"));
    stop_at_main = read_bool c j (codes "stopAtBeginningOfMainSubprogram");
  }

  -- `ValueFormat::From`
  unfoldable pub format_from : Json Double → Bool
  format_from j = read_bool c j (codes "hex")

  abbrev pub set_breakpoints_arguments_from : Json Double → RequestArguments
  set_breakpoints_arguments_from j =
      set_breakpoints (source_from c (at_name j (codes "source")))
        (list_from source_breakpoint_from (at_name j (codes "breakpoints")))

  abbrev pub attach_arguments_from : Json Double → RequestArguments
  attach_arguments_from j =
      attach (read_int c j (codes "pid")) (get_string_array (at_name j (codes "arguments")))

  abbrev pub scopes_arguments_from : Json Double → RequestArguments
  scopes_arguments_from j = scopes (read_number c j (codes "frameId") not_found)

  abbrev pub stack_trace_arguments_from : Json Double → RequestArguments
  stack_trace_arguments_from j = stack_trace (read_int c j (codes "threadId"))

  abbrev pub pause_arguments_from : Json Double → RequestArguments
  pause_arguments_from j = pause (get_integer (at_name j (codes "threadId")) (pos 0))

  abbrev pub next_arguments_from : Json Double → RequestArguments
  next_arguments_from j =
      next (read_int c j (codes "threadId")) (read_bool c j (codes "singleThread"))
        (read_string c j (codes "granularity"))

  abbrev pub step_arguments_from : Json Double → RequestArguments
  step_arguments_from j =
      step (read_int c j (codes "threadId")) (get_bool (at_name j (codes "singleThread")) true)
        (get_string (at_name j (codes "granularity")) (codes "line"))

  abbrev pub continue_arguments_from : Json Double → RequestArguments
  continue_arguments_from j =
      continue (read_int c j (codes "threadId")) (read_bool c j (codes "singleThread"))

  abbrev pub set_function_breakpoints_arguments_from : Json Double → RequestArguments
  set_function_breakpoints_arguments_from j =
      set_function_breakpoints
        (list_from function_breakpoint_from (at_name j (codes "breakpoints")))

  abbrev pub variables_arguments_from : Json Double → RequestArguments
  variables_arguments_from j =
      variables_of (read_int c j (codes "variablesReference"))
        (get_integer (at_name j (codes "count")) (pos 0)) (format_from (at_name j (codes "format")))

  abbrev pub source_arguments_from : Json Double → RequestArguments
  source_arguments_from j =
      source_of (source_from c (at_name j (codes "source")))
        (get_integer (at_name j (codes "sourceReference")) (pos 0))

  abbrev pub evaluate_arguments_from : Json Double → RequestArguments
  evaluate_arguments_from j =
      evaluate (read_int c j (codes "frameId")) (read_string c j (codes "expression"))
        (format_from (at_name j (codes "format")))
        (get_string (at_name j (codes "context")) (codes "hover"))

  -- `CancelRequest` reads the object "arguments" itself as a number, and -1 is the default.
  abbrev pub cancel_arguments_from : Json Double → RequestArguments
  cancel_arguments_from j = cancel (get_integer j not_found)

  abbrev pub disconnect_arguments_from : Json Double → RequestArguments
  disconnect_arguments_from j =
      disconnect (read_bool c j (codes "restart"))
        (get_bool (at_name j (codes "terminateDebuggee")) true)

  abbrev pub run_in_terminal_arguments_from : Json Double → RequestArguments
  run_in_terminal_arguments_from j =
      run_in_terminal (read_string c j (codes "kind")) (read_string c j (codes "title"))
        (get_string_array (at_name j (codes "args")))

  -- `From` of the arguments of an object of the class, from the Json of the request's arguments.
  unfoldable pub arguments_from : RequestClass → Json Double → RequestArguments
  arguments_from initialize_request j = initialize (initialize_from j)
  arguments_from set_breakpoints_request j = set_breakpoints_arguments_from j
  arguments_from simple_request j = no_arguments
  arguments_from launch_request j = launch (launch_from j)
  arguments_from attach_request j = attach_arguments_from j
  arguments_from scopes_request j = scopes_arguments_from j
  arguments_from stack_trace_request j = stack_trace_arguments_from j
  arguments_from pause_request j = pause_arguments_from j
  arguments_from next_request j = next_arguments_from j
  arguments_from step_request j = step_arguments_from j
  arguments_from continue_request j = continue_arguments_from j
  arguments_from set_function_breakpoints_request j = set_function_breakpoints_arguments_from j
  arguments_from variables_request j = variables_arguments_from j
  arguments_from breakpoint_locations_request j =
      breakpoint_locations (breakpoint_locations_from c j)
  arguments_from source_request j = source_arguments_from j
  arguments_from evaluate_request j = evaluate_arguments_from j
  arguments_from cancel_request j = cancel_arguments_from j
  arguments_from disconnect_request j = disconnect_arguments_from j
  arguments_from run_in_terminal_request j = run_in_terminal_arguments_from j

  -- The fields of the base class, and those of the arguments.
  unfoldable pub request_message_from : RequestClass → Json Double → Request × RequestArguments
  request_message_from k j = (request_from c j, arguments_from k (at_name j (codes "arguments")))
