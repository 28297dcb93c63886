-- ===== src/Client/Requests.antt =====
-- dap/Client.cpp: the requests of the class's API.
use wxdap.Base.{
  ℕ, Bool, true, false, ◌||◌, not, Option, none, some, List, [], ◌∷◌, ◌++◌, Bytes, codes,
  if◌then◌else◌,
}
use wxdap.Decimal.{int_of_size}
use wxdap.Client.{Client, in_progress, Outcome, make_request, send_request, insert_key, int_of_size}
use wxdap.Decimal.{ℤ}
use wxdap.Protocol.{Source, not_found}
use wxdap.Protocol.Registry.{is_in}
use wxdap.Protocol.Structs.{int_eq, is_positive}
use wxdap.Protocol.Requests.{
  EvaluateContext, variables, watch, repl, hover, clipboard, SteppingGranularity, line, statement,
  instruction, ValueDisplayFormat, native, hex, Environment, SourceBreakpoint, FunctionBreakpoint,
  InitializeArguments, Arguments, initialize, set_breakpoints, configuration_done, threads, launch,
  attach, scopes, stack_trace, next, continue, step_in, step_out, set_function_breakpoints,
  variables_of, pause, breakpoint_locations, source_of, evaluate,
}

abbrev pub default_arguments : InitializeArguments
default_arguments = record {
  client_id = codes "wxdap";
  client_name = codes "wxdap";
  adapter_id = [];
  locale = codes "en-US";
  lines_start_at1 = false;
  columns_start_at1 = false;
  supports_invalidated_event = false;
  path_format = codes "path";
}

abbrev pub granularity_name : SteppingGranularity → Bytes
granularity_name line = codes "line"
granularity_name statement = codes "statement"
granularity_name instruction = codes "instruction"

abbrev pub context_name : EvaluateContext → Bytes
context_name clipboard = codes "clipboard"
context_name hover = codes "hover"
context_name repl = codes "repl"
context_name variables = codes "variables"
context_name watch = codes "watch"

abbrev pub is_hex : ValueDisplayFormat → Bool
is_hex native = false
is_hex hex = true

-- `threadId == wxNOT_FOUND ? GetActiveThreadId() : threadId`
unfoldable pub thread_or_active : Client → ℤ → ℤ
thread_or_active s thread_id = if int_eq thread_id not_found then s.active_thread_id else thread_id

unfoldable pub is_supported : Client → Bytes → Bool
is_supported s feature = is_in feature s.features

module _ {D : Type 0} where
  -- What most requests do: a new request with these arguments is sent.
  unfoldable pub request_of : Client → Arguments → Outcome D
  unfolding make_request
  request_of s arguments = let (request, s') = make_request s arguments in send_request s' request

  unfoldable pub initialize_session : Client → Option InitializeArguments → Outcome D
  unfolding request_of
  initialize_session s arguments =
      let chosen : InitializeArguments = elim arguments [ none ↦ default_arguments | some a ↦ a ] in
      let (s', effects) = request_of s (initialize chosen) in
      (record s' { handshake_state = in_progress }, effects)

  -- `full_name` is `wxFileName(file).GetFullName()`.
  unfoldable pub set_breakpoints_file :
      (full_name : Bytes → Bytes) → Client → Bytes → List SourceBreakpoint → Outcome D
  unfolding request_of
  set_breakpoints_file full_name s path lines =
      let queued = record s {
        source_breakpoints_queue = s.source_breakpoints_queue ++ path ∷ [];
      } in
      request_of queued (set_breakpoints lines path (full_name path))

  -- The command `cmd[0] :: rest`: `cmd[0]` of an empty vector is undefined.
  unfoldable pub launch_program : Client → Bytes → List Bytes → Bytes → Environment → Outcome D
  unfolding request_of
  launch_program s program args working_directory env =
      request_of (record s { active_thread_id = not_found })
        (launch program args working_directory env)

  unfoldable pub get_scopes : Client → ℤ → Outcome D
  unfolding request_of
  get_scopes s frame_id =
      request_of (record s { get_scopes_queue = s.get_scopes_queue ++ frame_id ∷ [] })
        (scopes frame_id)

  unfoldable pub get_frames : Client → ℤ → ℤ → ℤ → Outcome D
  unfolding request_of thread_or_active
  get_frames s thread_id starting_frame frame_count =
      let thread = thread_or_active s thread_id in
      request_of (record s { get_frames_queue = s.get_frames_queue ++ thread ∷ [] })
        (stack_trace thread frame_count starting_frame)

  -- `Next`
  unfoldable pub step_over : Client → ℤ → Bool → SteppingGranularity → Outcome D
  unfolding request_of thread_or_active
  step_over s thread_id single_thread granularity =
      request_of s
        (next (thread_or_active s thread_id) single_thread (granularity_name granularity))

  unfoldable pub continue_run : Client → ℤ → Bool → Outcome D
  unfolding request_of thread_or_active
  continue_run s thread_id all_threads =
      let thread = thread_or_active s thread_id in
      request_of s (continue thread (not all_threads || int_eq thread not_found))

  unfoldable pub get_children_variables :
      Client → ℤ → EvaluateContext → ℕ → ValueDisplayFormat → Outcome D
  unfolding request_of
  get_children_variables s reference context count format =
      request_of
        (record s { get_variables_queue = s.get_variables_queue ++ (reference, context) ∷ [] })
        (variables_of reference (int_of_size count) (is_hex format))

  -- The file is kept under the request's number after the request is sent.
  unfoldable pub request_breakpoint_locations : Client → Bytes → ℤ → ℤ → Outcome D
  unfolding make_request is_supported
  request_breakpoint_locations s filepath start_line end_line =
      if not (is_supported s (codes "supportsBreakpointLocationsRequest"))
      then (s, [])
      else let (request, s1) = make_request s (breakpoint_locations filepath start_line end_line) in
        let (s2, effects) = send_request s1 request in
        (
          record s2 {
            request_id_to_filepath = insert_key request.seq filepath s2.request_id_to_filepath;
          },
          effects,
        )

  -- With the returned value.
  unfoldable pub load_source : Client → Source → ℕ → Bool × Outcome D
  unfolding request_of
  load_source s source callback =
      if is_positive source.source_reference
      then (
        true,
        request_of (record s { load_sources_queue = s.load_sources_queue ++ callback ∷ [] })
            (source_of source source.source_reference),
      )
      else (false, (s, []))

  unfoldable pub evaluate_expression :
      Client → Bytes → ℤ → EvaluateContext → ℕ → ValueDisplayFormat → Outcome D
  unfolding request_of
  evaluate_expression s expression frame_id context callback format =
      request_of (record s { evaluate_queue = s.evaluate_queue ++ callback ∷ [] })
        (evaluate frame_id expression (is_hex format) (context_name context))

  -- The number `pid` is not used.
  unfoldable pub attach_to : Client → ℤ → List Bytes → Outcome D
  unfolding request_of
  attach_to s pid arguments = request_of s (attach arguments)

-- A call of the API, with its arguments.
pub data Call : Type 0 where
  initialize_call : Option InitializeArguments → Call
  set_breakpoints_file_call : Bytes → List SourceBreakpoint → Call
  configuration_done_call get_threads_call : Call
  launch_call : Bytes → List Bytes → Bytes → Environment → Call
  get_scopes_call : ℤ → Call
  get_frames_call : ℤ → ℤ → ℤ → Call
  next_call : ℤ → Bool → SteppingGranularity → Call
  continue_call step_in_call step_out_call : ℤ → Bool → Call
  set_function_breakpoints_call : List FunctionBreakpoint → Call
  get_children_variables_call : ℤ → EvaluateContext → ℕ → ValueDisplayFormat → Call
  pause_call : ℤ → Call
  breakpoint_locations_call : Bytes → ℤ → ℤ → Call
  load_source_call : Source → ℕ → Call
  evaluate_call : Bytes → ℤ → EvaluateContext → ℕ → ValueDisplayFormat → Call
  attach_call : ℤ → List Bytes → Call

module _ {D : Type 0} (full_name : Bytes → Bytes) where
  unfoldable pub run_call : Client → Call → Outcome D
  unfolding request_of thread_or_active
  run_call s (initialize_call arguments) = initialize_session s arguments
  run_call s (set_breakpoints_file_call path lines) = set_breakpoints_file full_name s path lines
  run_call s configuration_done_call = request_of s configuration_done
  run_call s get_threads_call = request_of s threads
  run_call s (launch_call program args cwd env) = launch_program s program args cwd env
  run_call s (get_scopes_call frame) = get_scopes s frame
  run_call s (get_frames_call thread start count) = get_frames s thread start count
  run_call s (next_call thread single granularity) = step_over s thread single granularity
  run_call s (continue_call thread all) = continue_run s thread all
  run_call s (step_in_call thread single) =
      request_of s (step_in (thread_or_active s thread) single)
  run_call s (step_out_call thread single) =
      request_of s (step_out (thread_or_active s thread) single)
  run_call s (set_function_breakpoints_call breakpoints) =
      request_of s (set_function_breakpoints breakpoints)
  run_call s (get_children_variables_call reference context count format) =
      get_children_variables s reference context count format
  run_call s (pause_call thread) = request_of s (pause (thread_or_active s thread))
  run_call s (breakpoint_locations_call path start end) =
      request_breakpoint_locations s path start end
  run_call s (load_source_call source callback) = (load_source s source callback).1
  run_call s (evaluate_call expression frame context callback format) =
      evaluate_expression s expression frame context callback format
  run_call s (attach_call pid arguments) = attach_to s pid arguments
