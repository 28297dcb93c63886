-- ===== src/Client/Buffer.antt =====
-- The handling of a message does not depend on the input buffer, and leaves it.
use wxdap.Base.{
  ◌≡◌, refl, ap, ◌∙◌, Bool, true, false, Option, none, some, List, [], ◌∷◌, ◌++◌, arith,
  if◌then◌else◌,
}
use wxdap.Client.{
  no_attachment, log_received, Client, HandshakeState, not_performed, in_progress, completed,
  Outcome, EventType, Attached, launch_response, threads_response, configuration_done_response,
  set_function_breakpoint_response,
}
use wxdap.Client.Receive.{
  get_originating_request, answer, send_dap_event, send_stopped_event, handle_evaluate_response,
  handle_source_response, on_event, on_stack_trace, on_scopes, on_variables,
  on_breakpoint_locations, on_set_breakpoints, on_response, on_request, on_handshake, on_received,
  dispatch, on_message,
}
use wxdap.Client.Session.{on_messages}
use wxdap.Json.{CJson, Json, Node}
use wxdap.Protocol.{Response, Event, Request}
use wxdap.Protocol.Registry.{Received, request, response, event, from_json}
use wxdap.Rpc.{JsonRpc}

-- The client and the outcome with another buffer.
abbrev pub with_rpc : JsonRpc → Client → Client
with_rpc rpc s = record s { rpc = rpc }

unfoldable pub on_rpc : {D : Type 0} → JsonRpc → Outcome D → Outcome D
on_rpc rpc out = (with_rpc rpc out.0, out.1)

module _ (c : CJson) (rpc : JsonRpc) where
  open c use {Double}

  branch :
      (b : Bool) (x x' y y' : Outcome Double)
      → x' ≡ on_rpc rpc x
      → y' ≡ on_rpc rpc y
      → (if b then x' else y') ≡ on_rpc rpc (if b then x else y)
  branch true x x' y y' p q = p
  branch false x x' y y' p q = q

  answer-with_rpc :
      (s : Client) (type : EventType) (a : Attached) (j : Json Double) (r : Response)
      → answer c (with_rpc rpc s) type a j r ≡ on_rpc rpc (answer c s type a j r)
  unfolding on_rpc answer get_originating_request send_dap_event
  answer-with_rpc s type a j r = ground arith

  on_event-with_rpc :
      (s : Client) (e : Event) (j : Json Double)
      → on_event c (with_rpc rpc s) e j ≡ on_rpc rpc (on_event c s e j)
  unfolding on_rpc on_event send_dap_event send_stopped_event
  on_event-with_rpc s e j = ground arith

  on_request-with_rpc :
      (s : Client) (r : Request) (j : Json Double)
      → on_request c (with_rpc rpc s) r j ≡ on_rpc rpc (on_request c s r j)
  unfolding on_rpc on_request send_dap_event
  on_request-with_rpc s r j = ground arith

  on_handshake-with_rpc :
      (s : Client) (m : Option Received) (j : Json Double)
      → on_handshake c (with_rpc rpc s) m j ≡ on_rpc rpc (on_handshake c s m j)
  unfolding on_rpc on_handshake send_dap_event
  on_handshake-with_rpc s m j = ground arith

  handle_source_response-with_rpc :
      (s : Client) (j : Json Double)
      → handle_source_response c (with_rpc rpc s) j ≡ on_rpc rpc (handle_source_response c s j)
  unfolding on_rpc handle_source_response
  handle_source_response-with_rpc s j = ground arith

  handle_evaluate_response-with_rpc :
      (s : Client) (j : Json Double)
      → handle_evaluate_response c (with_rpc rpc s) j ≡ on_rpc rpc (handle_evaluate_response c s j)
  unfolding on_rpc handle_evaluate_response
  handle_evaluate_response-with_rpc s j = ground arith

  on_breakpoint_locations-with_rpc :
      (s : Client) (r : Response) (j : Json Double)
      → on_breakpoint_locations c (with_rpc rpc s) r j
        ≡ on_rpc rpc (on_breakpoint_locations c s r j)
  unfolding on_rpc on_breakpoint_locations answer get_originating_request send_dap_event
  on_breakpoint_locations-with_rpc s r j = ground arith

  on_stack_trace-with_rpc :
      (s : Client) (r : Response) (j : Json Double)
      → on_stack_trace c (with_rpc rpc s) r j ≡ on_rpc rpc (on_stack_trace c s r j)
  unfolding on_rpc on_stack_trace answer get_originating_request send_dap_event
  on_stack_trace-with_rpc s r j = ground arith

  on_scopes-with_rpc :
      (s : Client) (r : Response) (j : Json Double)
      → on_scopes c (with_rpc rpc s) r j ≡ on_rpc rpc (on_scopes c s r j)
  unfolding on_rpc on_scopes answer get_originating_request send_dap_event
  on_scopes-with_rpc s r j = ground arith

  on_variables-with_rpc :
      (s : Client) (r : Response) (j : Json Double)
      → on_variables c (with_rpc rpc s) r j ≡ on_rpc rpc (on_variables c s r j)
  unfolding on_rpc on_variables answer get_originating_request send_dap_event
  on_variables-with_rpc s r j = ground arith

  on_set_breakpoints-with_rpc :
      (s : Client) (r : Response) (j : Json Double)
      → on_set_breakpoints c (with_rpc rpc s) r j ≡ on_rpc rpc (on_set_breakpoints c s r j)
  unfolding on_rpc on_set_breakpoints answer get_originating_request send_dap_event
  on_set_breakpoints-with_rpc s r j = ground arith

  stopped-with_rpc : (s : Client) → (with_rpc rpc s, []) ≡ on_rpc {D = Double} rpc (s, [])
  unfolding on_rpc
  stopped-with_rpc s = refl

  on_response-with_rpc :
      (s : Client) (r : Response) (j : Json Double)
      → on_response c (with_rpc rpc s) r j ≡ on_rpc rpc (on_response c s r j)
  unfolding on_response
  on_response-with_rpc s r j =
      let plain = λ (type : EventType). answer-with_rpc s type no_attachment j r in
      branch _ _ _ _ _ (on_stack_trace-with_rpc s r j) (
        branch _ _ _ _ _ (on_scopes-with_rpc s r j) (
          branch _ _ _ _ _ (on_variables-with_rpc s r j) (
            branch _ _ _ _ _ (stopped-with_rpc (record s { can_interact = false })) (
              branch _ _ _ _ _ (on_breakpoint_locations-with_rpc s r j) (
                branch _ _ _ _ _ (plain set_function_breakpoint_response) (
                  branch _ _ _ _ _ (on_set_breakpoints-with_rpc s r j) (
                    branch _ _ _ _ _ (plain configuration_done_response) (
                      branch _ _ _ _ _ (plain launch_response) (
                        branch _ _ _ _ _ (plain threads_response) (
                          branch _ _ _ _ _ (handle_source_response-with_rpc s j) (
                            branch _ _ _ _ _ (handle_evaluate_response-with_rpc s j)
                              (stopped-with_rpc s))))))))))))

  on_received-with_rpc :
      (s : Client) (m : Option Received) (j : Json Double)
      → on_received c (with_rpc rpc s) m j ≡ on_rpc rpc (on_received c s m j)
  unfolding on_rpc on_received
  on_received-with_rpc s none j = refl
  on_received-with_rpc s (some (event e)) j = on_event-with_rpc s e j
  on_received-with_rpc s (some (response r)) j = on_response-with_rpc s r j
  on_received-with_rpc s (some (request r)) j = on_request-with_rpc s r j

  dispatch-with_rpc :
      (h : HandshakeState) (s : Client) (j : Json Double)
      → dispatch c h (with_rpc rpc s) j ≡ on_rpc rpc (dispatch c h s j)
  unfolding on_rpc dispatch
  dispatch-with_rpc completed s j = on_received-with_rpc s (from_json c j) j
  dispatch-with_rpc not_performed s j = on_handshake-with_rpc s (from_json c j) j
  dispatch-with_rpc in_progress s j = on_handshake-with_rpc s (from_json c j) j

  -- A message is handled alike whatever the buffer holds, and the buffer stays as it is.
  pub on_message-with_rpc :
      (s : Client) (j : Json Double)
      → on_message c (with_rpc rpc s) j ≡ on_rpc rpc (on_message c s j)
  unfolding on_rpc on_message
  on_message-with_rpc s j =
      let logged = if s.wants_log_events then log_received j ∷ [] else [] in
      ap (λ (out : Outcome Double). (out.0, logged ++ out.1))
        (dispatch-with_rpc s.handshake_state s j)

  pub on_messages-with_rpc :
      (s : Client) (ns : List (Node Double))
      → on_messages c (with_rpc rpc s) ns ≡ on_rpc rpc (on_messages c s ns)
  unfolding on_rpc on_messages
  on_messages-with_rpc s [] = refl
  on_messages-with_rpc s (n ∷ ns) =
      let out = on_message c s (some n) in
      let go_on : Outcome Double → Outcome Double =
        λ first. let rest = on_messages c first.0 ns in (rest.0, first.1 ++ rest.1) in
      let behind : Outcome Double → Outcome Double = λ rest. (rest.0, out.1 ++ rest.1) in
      ap go_on (on_message-with_rpc s (some n)) ∙ ap behind (on_messages-with_rpc out.0 ns)
