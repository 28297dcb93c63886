-- ===== src/Client/Receive.antt =====
-- dap/Client.cpp: `OnMessage` and what it calls, on a Json that came from the server.
mod Owner
unfoldable pub use Owner.*
use wxdap.Base.{true, false, Option, none, some, [], ◌∷◌, ◌++◌, codes, bytes_eq, if◌then◌else◌}
use wxdap.Client.{
  Client, HandshakeState, not_performed, in_progress, completed, Outcome, find_key, erase_key,
  EventType, no_attachment, ref_id, ref_id_in_context, file, log_received, initialize_response,
  process_event, exited_event, terminated_event, initialized_event, output_event, breakpoint_event,
  continued_event, module_event, stacktrace_response, scopes_response, variables_response,
  breakpoint_locations_response, set_function_breakpoint_response, set_source_breakpoint_response,
  configuration_done_response, launch_response, threads_response, run_in_terminal_request,
}
use wxdap.Json.{CJson, Json, at_name}
use wxdap.Protocol.{Response, Event, Request}
use wxdap.Protocol.Registry.{Received, request, response, event, from_json}

module _ (c : CJson) where
  open c use {Double}

  unfoldable pub on_event : Client → Event → Json Double → Outcome Double
  unfolding send_dap_event send_stopped_event
  on_event s e j =
      let plain : EventType → Outcome Double =
        λ type. send_dap_event c s type no_attachment j none in
      if bytes_eq e.event (codes "stopped")
      then send_stopped_event c (record s { can_interact = true }) j
      else if bytes_eq e.event (codes "process")
      then plain process_event
      else if bytes_eq e.event (codes "exited")
      then plain exited_event
      else if bytes_eq e.event (codes "terminated")
      then plain terminated_event
      else if bytes_eq e.event (codes "initialized")
      then plain initialized_event
      else if bytes_eq e.event (codes "output")
      then plain output_event
      else if bytes_eq e.event (codes "breakpoint")
      then plain breakpoint_event
      else if bytes_eq e.event (codes "continued")
      then send_dap_event c (record s { can_interact = false }) continued_event no_attachment j none
      else if bytes_eq e.event (codes "module")
      then plain module_event
      else (s, [])

  unfoldable pub on_stack_trace : Client → Response → Json Double → Outcome Double
  unfolding answer
  on_stack_trace s r j =
      let (front, queue) = pop_front s.get_frames_queue in
      answer c (record s { get_frames_queue = queue }) stacktrace_response (attached ref_id front) j
        r

  unfoldable pub on_scopes : Client → Response → Json Double → Outcome Double
  unfolding answer
  on_scopes s r j =
      let (front, queue) = pop_front s.get_scopes_queue in
      answer c (record s { get_scopes_queue = queue }) scopes_response (attached ref_id front) j r

  unfoldable pub on_variables : Client → Response → Json Double → Outcome Double
  unfolding answer
  on_variables s r j =
      let (front, queue) = pop_front s.get_variables_queue in
      answer c (record s { get_variables_queue = queue }) variables_response
        (attached ref_id_in_context front) j r

  unfoldable pub on_breakpoint_locations : Client → Response → Json Double → Outcome Double
  unfolding answer
  on_breakpoint_locations s r j = elim (find_key r.request_seq s.request_id_to_filepath) [
    | none ↦ answer c s breakpoint_locations_response no_attachment j r
    | some path ↦
        answer c
          (record s { request_id_to_filepath = erase_key r.request_seq s.request_id_to_filepath })
          breakpoint_locations_response (file path) j r
  ]

  unfoldable pub on_set_breakpoints : Client → Response → Json Double → Outcome Double
  unfolding answer
  on_set_breakpoints s r j =
      let (front, queue) = pop_front s.source_breakpoints_queue in
      answer c (record s { source_breakpoints_queue = queue }) set_source_breakpoint_response
        (attached file front) j r

  unfoldable pub on_response : Client → Response → Json Double → Outcome Double
  on_response s r j =
      let plain : EventType → Outcome Double = λ type. answer c s type no_attachment j r in
      if bytes_eq r.command (codes "stackTrace")
      then on_stack_trace s r j
      else if bytes_eq r.command (codes "scopes")
      then on_scopes s r j
      else if bytes_eq r.command (codes "variables")
      then on_variables s r j
      else if is_step r.command
      then (record s { can_interact = false }, [])
      else if bytes_eq r.command (codes "breakpointLocations")
      then on_breakpoint_locations s r j
      else if bytes_eq r.command (codes "setFunctionBreakpoints")
      then plain set_function_breakpoint_response
      else if bytes_eq r.command (codes "setBreakpoints")
      then on_set_breakpoints s r j
      else if bytes_eq r.command (codes "configurationDone")
      then plain configuration_done_response
      else if bytes_eq r.command (codes "launch")
      then plain launch_response
      else if bytes_eq r.command (codes "threads")
      then plain threads_response
      else if bytes_eq r.command (codes "source")
      then handle_source_response c s j
      else if bytes_eq r.command (codes "evaluate")
      then handle_evaluate_response c s j
      else (s, [])

  -- A request from the server to the client.
  unfoldable pub on_request : Client → Request → Json Double → Outcome Double
  unfolding send_dap_event
  on_request s r j =
      if bytes_eq r.command (codes "runInTerminal")
      then send_dap_event c s run_in_terminal_request no_attachment j none
      else (s, [])

  -- Before the handshake is completed.
  unfoldable pub on_handshake : Client → Option Received → Json Double → Outcome Double
  unfolding enable_features send_dap_event
  on_handshake s (some (response r)) j =
      if bytes_eq r.base.type (codes "response")
      then if bytes_eq r.command (codes "initialize")
        then send_dap_event c
            (record s {
              handshake_state = completed;
              features = enable_features c feature_names (at_name j (codes "body")) s.features;
            })
            initialize_response no_attachment j none
        else (s, [])
      else (s, [])
  on_handshake s (some (request r)) j = (s, [])
  on_handshake s (some (event e)) j = (s, [])
  on_handshake s none j = (s, [])

  unfoldable pub on_received : Client → Option Received → Json Double → Outcome Double
  on_received s none j = (s, [])
  on_received s (some (event e)) j = on_event s e j
  on_received s (some (response r)) j = on_response s r j
  on_received s (some (request r)) j = on_request s r j

  unfoldable pub dispatch : HandshakeState → Client → Json Double → Outcome Double
  dispatch completed s j = on_received s (from_json c j) j
  dispatch not_performed s j = on_handshake s (from_json c j) j
  dispatch in_progress s j = on_handshake s (from_json c j) j

  unfoldable pub on_message : Client → Json Double → Outcome Double
  unfolding dispatch
  on_message s j =
      let logged = if s.wants_log_events then log_received j ∷ [] else [] in
      let (s', effects) = dispatch s.handshake_state s j in (s', logged ++ effects)
