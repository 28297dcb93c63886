-- ===== src/Client/Receive/Owner.antt =====
-- dap/Client.cpp: what `OnMessage` hands to the client's owner, events (`SendDAPEvent`) and callbacks.
use wxdap.Base.{
  Bool, false, ◌||◌, Option, none, some, List, [], ◌∷◌, Bytes, codes, bytes_eq, if◌then◌else◌,
}
use wxdap.Client.{
  Client, Outcome, find_key, erase_key, EventType, Attached, no_attachment, dap_event, evaluated,
  source_loaded, stopped_event,
}
use wxdap.Json.{CJson, Json, at_name, get_bool}
use wxdap.Protocol.{Response, response_from}
use wxdap.Protocol.Events.{stopped_from}
use wxdap.Protocol.Requests.{ClientRequest, source_response_from, evaluate_response_from}

abbrev pub feature_names : List Bytes
feature_names =
    codes "supportsConfigurationDoneRequest"
    ∷ codes "supportsFunctionBreakpoints"
    ∷ codes "supportsConditionalBreakpoints"
    ∷ codes "supportsHitConditionalBreakpoints"
    ∷ codes "supportsEvaluateForHovers"
    ∷ codes "supportsStepBack"
    ∷ codes "supportsSetVariable"
    ∷ codes "supportsRestartFrame"
    ∷ codes "supportsGotoTargetsRequest"
    ∷ codes "supportsStepInTargetsRequest"
    ∷ codes "supportsCompletionsRequest"
    ∷ codes "supportsModulesRequest"
    ∷ codes "supportsRestartRequest"
    ∷ codes "supportsExceptionOptions"
    ∷ codes "supportsValueFormattingOptions"
    ∷ codes "supportsExceptionInfoRequest"
    ∷ codes "supportTerminateDebuggee"
    ∷ codes "supportsDelayedStackTraceLoading"
    ∷ codes "supportsLoadedSourcesRequest"
    ∷ codes "supportsProgressReporting"
    ∷ codes "supportsRunInTerminalRequest"
    ∷ codes "supportsBreakpointLocationsRequest"
    ∷ []

-- The front of a queue, and the queue without it.
module _ {ℓ} {A : Type ℓ} where
  abbrev pub pop_front : List A → Option A × List A
  pop_front [] = (none, [])
  pop_front (a ∷ q) = (some a, q)

  -- What the front of a queue adds to a response.
  abbrev pub attached : (A → Attached) → Option A → Attached
  attached make none = no_attachment
  attached make (some a) = make a

-- `GetOriginatingRequest` of a response that is not null.
unfoldable pub get_originating_request : Client → Response → Option ClientRequest × Client
unfolding find_key
get_originating_request s r = elim (find_key r.request_seq s.in_flight_requests) [
  | none ↦ (none, s)
  | some req ↦
      (some req, record s { in_flight_requests = erase_key r.request_seq s.in_flight_requests })
]

-- The commands that set the debuggee going.
abbrev pub is_step : Bytes → Bool
is_step command =
    bytes_eq command (codes "stepIn")
    || (bytes_eq command (codes "stepOut")
        || (bytes_eq command (codes "next") || bytes_eq command (codes "continue")))

module _ (c : CJson) where
  open c use {Double}

  -- The macro `ENABLE_FEATURE`, for each name.
  unfoldable pub enable_features : List Bytes → Json Double → List Bytes → List Bytes
  enable_features [] body features = features
  enable_features (name ∷ names) body features =
      enable_features names body
        (if get_bool (at_name body name) false then name ∷ features else features)

  -- `SendDAPEvent` of a message that is not a `StoppedEvent`, and of one that is.
  unfoldable pub send_dap_event :
      Client → EventType → Attached → Json Double → Option ClientRequest → Outcome Double
  send_dap_event s type attached j req = (s, dap_event type attached j req ∷ [])

  unfoldable pub send_stopped_event : Client → Json Double → Outcome Double
  unfolding stopped_from
  send_stopped_event s j = (
    record s { active_thread_id = (stopped_from c (at_name j (codes "body"))).thread_id },
    dap_event stopped_event no_attachment j none ∷ [],
  )

  -- `SendDAPEvent(type, attached, json, GetOriginatingRequest(as_response))`
  unfoldable pub answer : Client → EventType → Attached → Json Double → Response → Outcome Double
  unfolding get_originating_request send_dap_event
  answer s type attached j r =
      let (req, s') = get_originating_request s r in send_dap_event s' type attached j req

  unfoldable pub handle_evaluate_response : Client → Json Double → Outcome Double
  unfolding evaluate_response_from response_from
  handle_evaluate_response s j =
      let (front, queue) = pop_front s.evaluate_queue in
      elim front [
        | none ↦ (s, [])
        | some callback ↦
            let r = evaluate_response_from c j in
            (
              record s { evaluate_queue = queue },
              evaluated callback r.base.success r.result r.type r.variables_reference ∷ [],
            )
      ]

  unfoldable pub handle_source_response : Client → Json Double → Outcome Double
  unfolding source_response_from response_from
  handle_source_response s j =
      let (front, queue) = pop_front s.load_sources_queue in
      elim front [
        | none ↦ (s, [])
        | some callback ↦
            let r = source_response_from c j in
            (
              record s { load_sources_queue = queue },
              source_loaded callback r.base.success r.content r.mime_type ∷ [],
            )
      ]
