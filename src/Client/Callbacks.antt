-- ===== src/Client/Callbacks.antt =====
-- The callbacks of `EvaluateExpression` and `LoadSource`: each is called at most once, in the order of the
-- calls that handed them over.
use wxdap.Base.{
  ℕ, ◌≡◌, refl, Option, none, some, List, [], ◌∷◌, ◌++◌, Option-cases, inl, inr, arith,
}
use wxdap.Client.{
  set_source_breakpoint_response, Client, Effect, Outcome, find_key, HandshakeState, not_performed,
  in_progress, completed, EventType, Attached, evaluated, source_loaded,
  breakpoint_locations_response, no_attachment, file, stacktrace_response, scopes_response,
  variables_response, set_function_breakpoint_response, configuration_done_response,
  launch_response, threads_response,
}
use wxdap.Client.Receive.{
  on_message, dispatch, on_received, on_event, on_response, on_request, on_handshake, answer,
  get_originating_request, on_stack_trace, on_scopes, on_variables, on_breakpoint_locations,
  on_set_breakpoints, handle_source_response, handle_evaluate_response, send_dap_event,
  send_stopped_event,
}
use wxdap.Client.{ref_id, ref_id_in_context}
use wxdap.Client.Receive.{attached, pop_front}
use wxdap.Json.{CJson, Json}
use wxdap.Protocol.{Response, Event}
use wxdap.Protocol.Registry.{Received, request, response, event, from_json}

module _ {D : Type 0} where
  -- The callback that an effect calls.
  abbrev pub evaluated_by : Effect D → List ℕ
  evaluated_by (evaluated callback success result type reference) = callback ∷ []
  evaluated_by _ = []

  abbrev pub loaded_by : Effect D → List ℕ
  loaded_by (source_loaded callback success content mime_type) = callback ∷ []
  loaded_by _ = []

  -- The callbacks that were called, in order.
  abbrev pub evaluated_in : List (Effect D) → List ℕ
  evaluated_in [] = []
  evaluated_in (e ∷ es) = evaluated_by e ++ evaluated_in es

  abbrev pub loaded_in : List (Effect D) → List ℕ
  loaded_in [] = []
  loaded_in (e ∷ es) = loaded_by e ++ loaded_in es

  -- Nothing is lost from the two queues but what was called, from the front.
  abbrev pub Conserves : Client → Outcome D → Type 0
  Conserves s out =
      (out.0.transport ≡ s.transport)
      × (s.evaluate_queue ≡ evaluated_in out.1 ++ out.0.evaluate_queue)
      × (s.load_sources_queue ≡ loaded_in out.1 ++ out.0.load_sources_queue)

module _ (c : CJson) where
  open c use {Double}

  answer-Conserves :
      (s : Client) (type : EventType) (a : Attached) (j : Json Double) (r : Response)
      → Conserves s (answer c s type a j r)
  unfolding answer send_dap_event get_originating_request
  answer-Conserves s type a j r =
      elim (Option-cases (find_key r.request_seq s.in_flight_requests)) [
        | inl e ↦ rw (e, answer, get_originating_request) (refl, refl, refl)
        | inr (q, e) ↦ rw (e, answer, get_originating_request) (refl, refl, refl)
      ]

  on_event-Conserves : (s : Client) (e : Event) (j : Json Double) → Conserves s (on_event c s e j)
  unfolding on_event send_dap_event send_stopped_event
  on_event-Conserves s e j = ground arith

  on_breakpoint_locations-Conserves :
      (s : Client) (r : Response) (j : Json Double) → Conserves s (on_breakpoint_locations c s r j)
  unfolding on_breakpoint_locations
  on_breakpoint_locations-Conserves s r j =
      elim (Option-cases (find_key r.request_seq s.request_id_to_filepath)) [
        | inl e ↦
            rw (e, on_breakpoint_locations)
              (answer-Conserves s breakpoint_locations_response no_attachment j r)
        | inr (path, e) ↦
            rw (e, on_breakpoint_locations)
              (answer-Conserves _ breakpoint_locations_response (file path) j r)
      ]

  handle_evaluate_response-Conserves :
      (s : Client) (j : Json Double) → Conserves s (handle_evaluate_response c s j)
  unfolding handle_evaluate_response
  handle_evaluate_response-Conserves s j = ground arith

  handle_source_response-Conserves :
      (s : Client) (j : Json Double) → Conserves s (handle_source_response c s j)
  unfolding handle_source_response
  handle_source_response-Conserves s j = ground arith

  on_stack_trace-Conserves :
      (s : Client) (r : Response) (j : Json Double) → Conserves s (on_stack_trace c s r j)
  unfolding on_stack_trace
  on_stack_trace-Conserves s r j =
      answer-Conserves _ stacktrace_response (attached ref_id (pop_front s.get_frames_queue).0) j r

  on_scopes-Conserves :
      (s : Client) (r : Response) (j : Json Double) → Conserves s (on_scopes c s r j)
  unfolding on_scopes
  on_scopes-Conserves s r j =
      answer-Conserves _ scopes_response (attached ref_id (pop_front s.get_scopes_queue).0) j r

  on_variables-Conserves :
      (s : Client) (r : Response) (j : Json Double) → Conserves s (on_variables c s r j)
  unfolding on_variables
  on_variables-Conserves s r j =
      answer-Conserves _ variables_response
        (attached ref_id_in_context (pop_front s.get_variables_queue).0) j r

  on_set_breakpoints-Conserves :
      (s : Client) (r : Response) (j : Json Double) → Conserves s (on_set_breakpoints c s r j)
  unfolding on_set_breakpoints
  on_set_breakpoints-Conserves s r j =
      answer-Conserves _ set_source_breakpoint_response
        (attached file (pop_front s.source_breakpoints_queue).0) j r

  on_response-Conserves :
      (s : Client) (r : Response) (j : Json Double) → Conserves s (on_response c s r j)
  unfolding on_response
  on_response-Conserves s r j = ground (
    arith,
    on_stack_trace-Conserves s r j,
    on_set_breakpoints-Conserves s r j,
    on_scopes-Conserves s r j,
    on_variables-Conserves s r j,
    on_breakpoint_locations-Conserves s r j,
    handle_source_response-Conserves s j,
    handle_evaluate_response-Conserves s j,
    answer-Conserves s set_function_breakpoint_response no_attachment j r,
    answer-Conserves s configuration_done_response no_attachment j r,
    answer-Conserves s launch_response no_attachment j r,
    answer-Conserves s threads_response no_attachment j r,
  )

  on_handshake-Conserves :
      (s : Client) (m : Option Received) (j : Json Double) → Conserves s (on_handshake c s m j)
  unfolding on_handshake send_dap_event
  on_handshake-Conserves s m j = ground arith

  on_received-Conserves :
      (s : Client) (m : Option Received) (j : Json Double) → Conserves s (on_received c s m j)
  unfolding on_received on_request send_dap_event
  on_received-Conserves s none j = (refl, refl, refl)
  on_received-Conserves s (some (event e)) j = on_event-Conserves s e j
  on_received-Conserves s (some (response r)) j = on_response-Conserves s r j
  on_received-Conserves s (some (request r)) j = ground arith

  dispatch-Conserves :
      (h : HandshakeState) (s : Client) (j : Json Double) → Conserves s (dispatch c h s j)
  unfolding dispatch
  dispatch-Conserves completed s j = on_received-Conserves s (from_json c j) j
  dispatch-Conserves not_performed s j = on_handshake-Conserves s (from_json c j) j
  dispatch-Conserves in_progress s j = on_handshake-Conserves s (from_json c j) j

  pub on_message-Conserves : (s : Client) (j : Json Double) → Conserves s (on_message c s j)
  unfolding on_message
  on_message-Conserves s j = ground (arith, dispatch-Conserves s.handshake_state s j)
