-- ===== src/Client.antt =====
-- dap/Client.cpp and dap/Client.hpp: the class `Client`. This file has its state, the reader thread's
-- flags, `Reset` and the sending side's shared part. A handler gives the new state and its effects on the
-- world in order. The handlers of the events that `ProcessEvent` calls do not call the client back
-- before they return. What a pointer points to (transport, thread) is kept as whether it is null.
pub mod Requests
pub mod Receive
pub mod Session
pub mod Keys
pub mod InFlight
pub mod Numbers
pub mod Answers
pub mod Callbacks
pub mod Order
pub mod Fifo
pub mod Handshake
pub mod Restart
pub mod Threads
pub mod Buffer
pub mod Chunks
pub mod Leaks
pub mod Window
use wxdap.Base.{
  ℕ, ◌+◌, Bool, true, false, ◌||◌, not, Option, none, some, List, [], ◌∷◌, ◌++◌, Bytes, ltb,
  if◌then◌else◌, ◌%◌, ◌-◌,
}
use wxdap.Decimal.{ℤ, pos, negsuc, int_of_size}
use wxdap.Json.{Json}
use wxdap.Rpc.{JsonRpc}
use wxdap.Protocol.{not_found, Response}
use wxdap.Protocol.Structs.{int_eq}
use wxdap.Protocol.Requests.{EvaluateContext, Arguments, ClientRequest}

-- An `unordered_map` whose key is an `int`: `find`, `erase` of a key, and `insert`, which leaves a key
-- that is there as it is.
module _ {ℓ} {A : Type ℓ} where
  unfoldable pub find_key : ℤ → List (ℤ × A) → Option A
  find_key k [] = none
  find_key k ((j, a) ∷ m) = if int_eq j k then some a else find_key k m

  unfoldable pub erase_key : ℤ → List (ℤ × A) → List (ℤ × A)
  erase_key k [] = []
  erase_key k ((j, a) ∷ m) = if int_eq j k then erase_key k m else (j, a) ∷ erase_key k m

  unfoldable pub insert_key : ℤ → A → List (ℤ × A) → List (ℤ × A)
  unfolding find_key
  insert_key k a m = elim (find_key k m) [ none ↦ (k, a) ∷ m | some _ ↦ m ]

pub data HandshakeState : Type 0 where
  not_performed in_progress completed : HandshakeState

-- A callback is a number that its owner gave it. The bit set of features is the list of their names.
pub record Client : Type 0 where
  pub transport : Bool
  pub rpc : JsonRpc
  pub shutdown : Bool
  pub terminated : Bool
  pub reader_thread : Bool
  pub request_sequence : ℕ
  pub handshake_state : HandshakeState
  pub active_thread_id : ℤ
  pub can_interact : Bool
  pub request_id_to_filepath : List (ℤ × Bytes)
  pub features : List Bytes
  pub wants_log_events : Bool
  pub get_frames_queue : List ℤ
  pub get_scopes_queue : List ℤ
  pub get_variables_queue : List (ℤ × EvaluateContext)
  pub load_sources_queue : List ℕ
  pub evaluate_queue : List ℕ
  pub source_breakpoints_queue : List Bytes
  pub in_flight_requests : List (ℤ × ClientRequest)

-- What `OnMessage` puts into a response before its `From`.
pub data Attached : Type 0 where
  no_attachment : Attached
  ref_id : ℤ → Attached
  ref_id_in_context : ℤ × EvaluateContext → Attached
  file : Bytes → Attached

pub data EventType : Type 0 where
  initialize_response stopped_event process_event exited_event terminated_event : EventType
  initialized_event output_event breakpoint_event continued_event module_event : EventType
  stacktrace_response scopes_response variables_response : EventType
  breakpoint_locations_response set_function_breakpoint_response : EventType
  set_source_breakpoint_response configuration_done_response launch_response : EventType
  threads_response run_in_terminal_request : EventType

-- What the client does to the world: events for its owner, messages for the transport, callbacks.
-- The message that an event carries is the one that `From` makes of the Json.
pub data Effect (D : Type 0) : Type 0 where
  lost_connection : Effect D
  log_sent : ClientRequest → Effect D
  log_sent_response : Response → Effect D
  log_received : Json D → Effect D
  sent : ClientRequest → Effect D
  sent_response : Response → Effect D
  dap_event : EventType → Attached → Json D → Option ClientRequest → Effect D
  source_loaded : (callback : ℕ) → Bool → (content mime_type : Bytes) → Effect D
  evaluated : (callback : ℕ) → Bool → (result type : Bytes) → (reference : ℤ) → Effect D

-- The new state, and the effects in order.
abbrev pub Outcome : Type 0 → Type 0
Outcome D = Client × List (Effect D)

-- The flag is set, and the thread, which tests it in each round, is joined.
unfoldable pub stop_reader_thread : Client → Client
stop_reader_thread s =
    if not s.reader_thread then s else record s { shutdown = true; reader_thread = false }

unfoldable pub start_reader_thread : Client → Client
start_reader_thread s =
    if s.reader_thread || not s.transport then s else record s { reader_thread = true }

unfoldable pub reset : Client → Client
unfolding stop_reader_thread
reset s =
    let stopped = stop_reader_thread s in
    record stopped {
      transport = false;
      shutdown = false;
      terminated = false;
      rpc = record { buffer = [] };
      request_sequence = 0;
      handshake_state = not_performed;
      active_thread_id = not_found;
      can_interact = false;
      request_id_to_filepath = [];
      features = [];
      load_sources_queue = [];
      get_frames_queue = [];
      get_scopes_queue = [];
      get_variables_queue = [];
      source_breakpoints_queue = [];
      evaluate_queue = [];
      in_flight_requests = [];
    }

-- With a transport that is not null.
unfoldable pub set_transport : Client → Client
unfolding reset start_reader_thread
set_transport s = start_reader_thread (record (reset s) { transport = true })

unfoldable pub is_connected : Client → Bool
is_connected s = if s.reader_thread then not s.terminated else false

unfoldable pub set_wants_log_events : Client → Bool → Client
set_wants_log_events s b = record s { wants_log_events = b }

-- `m_requestSeuqnce++` on a `size_t`.
unfoldable pub get_next_sequence : Client → ℕ × Client
get_next_sequence s =
    let next = (s.request_sequence + 1) % 18446744073709551616 in
    (next, record s { request_sequence = next })

-- `MakeRequest`, with the arguments that its caller sets afterwards.
unfoldable pub make_request : Client → Arguments → ClientRequest × Client
unfolding get_next_sequence int_of_size
make_request s arguments =
    let (next, s') = get_next_sequence s in
    (record { seq = int_of_size next; arguments = arguments }, s')

module _ {D : Type 0} where
  unfoldable pub on_connection_error : Client → Outcome D
  unfolding reset
  on_connection_error s = (reset s, lost_connection ∷ [])

  -- `m_rpc.Send` throws where the transport is null, and only there.
  unfoldable pub send_request : Client → ClientRequest → Outcome D
  unfolding on_connection_error insert_key
  send_request s request =
      if s.transport
      then (
        record s { in_flight_requests = insert_key request.seq request s.in_flight_requests },
        sent request ∷ (if s.wants_log_events then log_sent request ∷ [] else []),
      )
      else on_connection_error s

  unfoldable pub send_response : Client → Response → Outcome D
  unfolding on_connection_error
  send_response s response =
      if s.transport
      then (
        s,
        sent_response response
            ∷ (if s.wants_log_events then log_sent_response response ∷ [] else []),
      )
      else on_connection_error s
