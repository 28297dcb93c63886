-- ===== src/Client/InFlight.antt =====
-- The requests in flight: each is under its own number, which was given out.
use wxdap.Base.{◌≡◌, refl, Option, none, some, All, Option-cases, inl, inr, arith}
use wxdap.Client.{set_source_breakpoint_response, Client, find_key}
use wxdap.Client.Keys.{All-erase_key}
use wxdap.Client.Receive.{
  on_message, dispatch, on_received, on_event, on_response, on_request, on_handshake, answer,
  get_originating_request, on_stack_trace, on_scopes, on_variables, on_breakpoint_locations,
  on_set_breakpoints, handle_source_response, handle_evaluate_response,
}
use wxdap.Client.{HandshakeState, not_performed, in_progress, completed, EventType, Attached}
use wxdap.Client.Receive.{send_dap_event}
use wxdap.Protocol.Registry.{from_json}
use wxdap.Client.{breakpoint_locations_response, no_attachment, file}
use wxdap.Decimal.{ℤ}
use wxdap.Client.{
  stacktrace_response, scopes_response, variables_response, set_function_breakpoint_response,
  configuration_done_response, launch_response, threads_response,
}
use wxdap.Json.{CJson, Json}
use wxdap.Protocol.{Response, Event}
use wxdap.Protocol.Registry.{Received, request, response, event}
use wxdap.Protocol.Requests.{ClientRequest}

-- A property of the requests in flight and the number of the last request are kept.
abbrev pub Keeps : (ℤ × ClientRequest → Type 0) → Client → Client → Type 0
Keeps P s s' =
    (s'.request_sequence ≡ s.request_sequence)
    × (All P s.in_flight_requests → All P s'.in_flight_requests)

module _ (c : CJson) (P : ℤ × ClientRequest → Type 0) where
  open c use {Double}

  get_originating_request-Keeps :
      (s : Client) (r : Response) → Keeps P s (get_originating_request s r).1
  unfolding get_originating_request
  get_originating_request-Keeps s r =
      elim (Option-cases (find_key r.request_seq s.in_flight_requests)) [
        | inl e ↦ rw (e, get_originating_request) (refl, λ h. h)
        | inr (q, e) ↦
            rw (e, get_originating_request)
              (refl, All-erase_key P r.request_seq s.in_flight_requests)
      ]

  on_event-Keeps : (s : Client) (e : Event) (j : Json Double) → Keeps P s (on_event c s e j).0
  unfolding on_event
  on_event-Keeps s e j = ground arith

  answer-Keeps :
      (s : Client) (type : EventType) (a : Attached) (j : Json Double) (r : Response)
      → Keeps P s (answer c s type a j r).0
  unfolding answer send_dap_event
  answer-Keeps s type a j r = get_originating_request-Keeps s r

  on_breakpoint_locations-Keeps :
      (s : Client) (r : Response) (j : Json Double) → Keeps P s (on_breakpoint_locations c s r j).0
  unfolding on_breakpoint_locations
  on_breakpoint_locations-Keeps s r j =
      elim (Option-cases (find_key r.request_seq s.request_id_to_filepath)) [
        | inl e ↦
            rw (e, on_breakpoint_locations)
              (answer-Keeps s breakpoint_locations_response no_attachment j r)
        | inr (path, e) ↦
            rw (e, on_breakpoint_locations)
              (answer-Keeps _ breakpoint_locations_response (file path) j r)
      ]

  handle_evaluate_response-Keeps :
      (s : Client) (j : Json Double) → Keeps P s (handle_evaluate_response c s j).0
  unfolding handle_evaluate_response
  handle_evaluate_response-Keeps s j = ground arith

  handle_source_response-Keeps :
      (s : Client) (j : Json Double) → Keeps P s (handle_source_response c s j).0
  unfolding handle_source_response
  handle_source_response-Keeps s j = ground arith

  on_stack_trace-Keeps :
      (s : Client) (r : Response) (j : Json Double) → Keeps P s (on_stack_trace c s r j).0
  unfolding on_stack_trace
  on_stack_trace-Keeps s r j = answer-Keeps _ stacktrace_response no_attachment j r

  on_scopes-Keeps : (s : Client) (r : Response) (j : Json Double) → Keeps P s (on_scopes c s r j).0
  unfolding on_scopes
  on_scopes-Keeps s r j = answer-Keeps _ scopes_response no_attachment j r

  on_variables-Keeps :
      (s : Client) (r : Response) (j : Json Double) → Keeps P s (on_variables c s r j).0
  unfolding on_variables
  on_variables-Keeps s r j = answer-Keeps _ variables_response no_attachment j r

  on_set_breakpoints-Keeps :
      (s : Client) (r : Response) (j : Json Double) → Keeps P s (on_set_breakpoints c s r j).0
  unfolding on_set_breakpoints
  on_set_breakpoints-Keeps s r j = answer-Keeps _ set_source_breakpoint_response no_attachment j r

  on_response-Keeps :
      (s : Client) (r : Response) (j : Json Double) → Keeps P s (on_response c s r j).0
  unfolding on_response
  on_response-Keeps s r j = ground (
    arith,
    on_stack_trace-Keeps s r j,
    on_set_breakpoints-Keeps s r j,
    on_scopes-Keeps s r j,
    on_variables-Keeps s r j,
    on_breakpoint_locations-Keeps s r j,
    handle_source_response-Keeps s j,
    handle_evaluate_response-Keeps s j,
    answer-Keeps s set_function_breakpoint_response no_attachment j r,
    answer-Keeps s configuration_done_response no_attachment j r,
    answer-Keeps s launch_response no_attachment j r,
    answer-Keeps s threads_response no_attachment j r,
  )

  on_handshake-Keeps :
      (s : Client) (m : Option Received) (j : Json Double) → Keeps P s (on_handshake c s m j).0
  unfolding on_handshake send_dap_event
  on_handshake-Keeps s m j = ground arith

  on_received-Keeps :
      (s : Client) (m : Option Received) (j : Json Double) → Keeps P s (on_received c s m j).0
  unfolding on_received on_request send_dap_event
  on_received-Keeps s none j = (refl, λ h. h)
  on_received-Keeps s (some (event e)) j = on_event-Keeps s e j
  on_received-Keeps s (some (response r)) j = on_response-Keeps s r j
  on_received-Keeps s (some (request r)) j = ground arith

  dispatch-Keeps :
      (h : HandshakeState) (s : Client) (j : Json Double) → Keeps P s (dispatch c h s j).0
  unfolding dispatch
  dispatch-Keeps completed s j = on_received-Keeps s (from_json c j) j
  dispatch-Keeps not_performed s j = on_handshake-Keeps s (from_json c j) j
  dispatch-Keeps in_progress s j = on_handshake-Keeps s (from_json c j) j

  pub on_message-Keeps : (s : Client) (j : Json Double) → Keeps P s (on_message c s j).0
  unfolding on_message
  on_message-Keeps s j = dispatch-Keeps s.handshake_state s j
