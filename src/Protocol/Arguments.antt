-- ===== src/Protocol/Arguments.antt =====
-- dap/dap.cpp: `To` of the requests that the client makes, and `From` of most of their arguments.
use wxdap.Base.{Bool, true, false, none, List, [], ◌∷◌, ◌++◌, Bytes, codes, if◌then◌else◌}
use wxdap.Decimal.{ℤ, pos}
use wxdap.Json.{CJson, Json, is_ok}
use wxdap.Json.Build.{
  create_array, create_object, add_string, add_int, add_bool, add_item, add_strings, add_json,
}
use wxdap.Json.Arrays.{items_to}
use wxdap.Protocol.{Source, not_found}
use wxdap.Json.{get_integer, at_name}
use wxdap.Protocol.Structs.{source_from, source_to, is_positive}
use wxdap.Protocol.Requests.{
  EnvFormat, dictionary, list, no_env, Environment, SourceBreakpoint, FunctionBreakpoint,
  InitializeArguments, Arguments, initialize, set_breakpoints, configuration_done, threads, launch,
  attach, scopes, stack_trace, next, continue, step_in, step_out, set_function_breakpoints,
  variables_of, pause, breakpoint_locations, source_of, evaluate,
}

-- The command that each class sets.
abbrev pub command_of : Arguments → Bytes
command_of (initialize a) = codes "initialize"
command_of (set_breakpoints breakpoints path name) = codes "setBreakpoints"
command_of configuration_done = codes "configurationDone"
command_of threads = codes "threads"
command_of (launch program args cwd env) = codes "launch"
command_of (attach args) = codes "attach"
command_of (scopes frame_id) = codes "scopes"
command_of (stack_trace thread_id levels start_frame) = codes "stackTrace"
command_of (next thread_id single granularity) = codes "next"
command_of (continue thread_id single) = codes "continue"
command_of (step_in thread_id single) = codes "stepIn"
command_of (step_out thread_id single) = codes "stepOut"
command_of (set_function_breakpoints breakpoints) = codes "setFunctionBreakpoints"
command_of (variables_of reference count hex) = codes "variables"
command_of (pause thread_id) = codes "pause"
command_of (breakpoint_locations path line end_line) = codes "breakpointLocations"
command_of (source_of source reference) = codes "source"
command_of (evaluate frame_id expression hex context) = codes "evaluate"

pub record BreakpointLocationsArguments : Type 0 where
  pub source : Source
  pub line : ℤ
  pub column : ℤ
  pub end_line : ℤ
  pub end_column : ℤ

-- Those of the request for a path and two lines.
abbrev pub locations_in : Bytes → ℤ → ℤ → BreakpointLocationsArguments
locations_in path line end_line = record {
  source = record { name = []; path = path; source_reference = pos 0 };
  line = line;
  column = not_found;
  end_line = end_line;
  end_column = not_found;
}

module _ (c : CJson) where
  open c use {Double}

  unfoldable pub initialize_to : InitializeArguments → Json Double
  initialize_to a =
      let j1 = add_string c (create_object c) (codes "clientID") a.client_id in
      let j2 = add_string c j1 (codes "clientName") a.client_name in
      let j3 = add_string c j2 (codes "adapterID") a.adapter_id in
      let j4 = add_string c j3 (codes "locale") a.locale in
      let j5 = add_bool c j4 (codes "linesStartAt1") a.lines_start_at1 in
      let j6 = add_bool c j5 (codes "columnsStartAt1") a.columns_start_at1 in
      let j7 = add_string c j6 (codes "pathFormat") a.path_format in
      add_bool c j7 (codes "supportsInvalidatedEvent") a.supports_invalidated_event

  unfoldable pub source_breakpoint_to : SourceBreakpoint → Json Double
  source_breakpoint_to b =
      add_string c (add_int c (create_object c) (codes "line") b.line) (codes "condition")
        b.condition

  unfoldable pub function_breakpoint_to : FunctionBreakpoint → Json Double
  function_breakpoint_to b =
      add_string c (add_string c (create_object c) (codes "name") b.name) (codes "condition")
        b.condition

  -- The name of a variable is converted to a `const char*` by the current locale.
  unfoldable pub dictionary_to : Json Double → List (Bytes × Bytes) → Json Double
  dictionary_to j [] = j
  dictionary_to j ((name, value) ∷ vars) =
      dictionary_to (add_string c j (c.name_through name) value) vars

  unfoldable pub list_to : Json Double → List (Bytes × Bytes) → Json Double
  list_to j [] = j
  list_to j ((name, value) ∷ vars) = list_to (add_string c j [] (name ++ b'=' ∷ value)) vars

  -- The variables in the order in which the map gives them.
  unfoldable pub environment_to : EnvFormat → List (Bytes × Bytes) → Json Double
  environment_to dictionary vars = dictionary_to (create_object c) vars
  environment_to list vars = list_to (create_array c) vars
  environment_to no_env vars = none

  unfoldable pub launch_to : Bytes → List Bytes → Bytes → Environment → Json Double
  unfolding is_ok
  launch_to program args cwd env =
      let j1 = add_bool c (create_object c) (codes "noDebug") false in
      let j2 = add_string c j1 (codes "program") program in
      let j3 = add_strings c j2 (codes "args") args in
      let j4 = add_string c j3 (codes "cwd") cwd in
      let j5 = add_bool c j4 (codes "stopAtBeginningOfMainSubprogram") true in
      let env_obj = environment_to env.format env.vars in
      if is_ok env_obj then add_json c j5 (codes "env") env_obj else j5

  unfoldable pub attach_arguments_to : List Bytes → Json Double
  attach_arguments_to args =
      let j1 = add_strings c (create_object c) (codes "arguments") args in
      let j2 = add_int c j1 (codes "pid") not_found in
      let j3 = add_bool c j2 (codes "redirectOutput") true in
      let options = add_string c (create_array c) [] (codes "RedirectOutput") in
      add_item c j3 (codes "debugOptions") (add_string c options [] (codes "ShowReturnValue"))

  unfoldable pub format_to : Bool → Json Double
  format_to hex = add_bool c (create_object c) (codes "hex") hex

  -- `StepArguments`, with the granularity that it has from the start.
  unfoldable pub step_arguments_to : ℤ → Bool → Json Double
  step_arguments_to thread_id single =
      let j1 = add_int c (create_object c) (codes "threadId") thread_id in
      let j2 = add_bool c j1 (codes "singleThread") single in
      add_string c j2 (codes "granularity") (codes "line")

  unfoldable pub next_arguments_to : ℤ → Bool → Bytes → Json Double
  next_arguments_to thread_id single granularity =
      let j1 = add_int c (create_object c) (codes "threadId") thread_id in
      let j2 = add_string c j1 (codes "granularity") granularity in
      add_bool c j2 (codes "singleThread") single

  unfoldable pub breakpoint_locations_to : BreakpointLocationsArguments → Json Double
  breakpoint_locations_to a =
      let j1 = add_json c (create_object c) (codes "source") (source_to c a.source) in
      let j2 = add_int c j1 (codes "line") a.line in
      let j3 = add_int c j2 (codes "column") a.column in
      let j4 = add_int c j3 (codes "endLine") a.end_line in
      add_int c j4 (codes "endColumn") a.end_column

  -- The line is read from "restart", the column twice, and the end line not at all.
  unfoldable pub breakpoint_locations_from : Json Double → BreakpointLocationsArguments
  breakpoint_locations_from j =
      let line = get_integer (at_name j (codes "restart")) not_found in
      let column = get_integer (at_name j (codes "column")) not_found in
      record {
        source = source_from c (at_name j (codes "source"));
        line = line;
        column = get_integer (at_name j (codes "column")) column;
        end_line = not_found;
        end_column = get_integer (at_name j (codes "endColumn")) not_found;
      }

  unfoldable pub source_arguments_to : Source → ℤ → Json Double
  source_arguments_to source reference =
      let j = add_json c (create_object c) (codes "source") (source_to c source) in
      if is_positive reference then add_int c j (codes "sourceReference") reference else j

  unfoldable pub evaluate_to : ℤ → Bytes → Bool → Bytes → Json Double
  evaluate_to frame_id expression hex context =
      let j1 = add_string c (create_object c) (codes "expression") expression in
      let j2 = if is_positive frame_id then add_int c j1 (codes "frameId") frame_id else j1 in
      let j3 = add_string c j2 (codes "context") context in
      add_json c j3 (codes "format") (format_to hex)

  unfoldable pub variables_to : ℤ → ℤ → Bool → Json Double
  variables_to reference count hex =
      let j1 = add_int c (create_object c) (codes "variablesReference") reference in
      let j2 = add_int c j1 (codes "count") count in add_json c j2 (codes "format") (format_to hex)

  unfoldable pub set_breakpoints_to : List SourceBreakpoint → Bytes → Bytes → Json Double
  set_breakpoints_to breakpoints path name =
      let source : Source = record { name = name; path = path; source_reference = pos 0 } in
      let j = add_json c (create_object c) (codes "source") (source_to c source) in
      add_item c j (codes "breakpoints")
        (items_to c source_breakpoint_to (create_array c) breakpoints)

  unfoldable pub set_function_breakpoints_to : List FunctionBreakpoint → Json Double
  set_function_breakpoints_to breakpoints =
      add_item c (create_object c) (codes "breakpoints")
        (items_to c function_breakpoint_to (create_array c) breakpoints)
