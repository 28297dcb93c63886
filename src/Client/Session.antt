-- ===== src/Client/Session.antt =====
-- dap/Client.cpp: a session, the calls that the owner and the event loop make on one client, and what the
-- reader thread does to it, in order. Each
-- chunk is what the reader thread handed over. `parse` is `Json::Parse`, `full_name` the name that
-- wxFileName gives.
use wxdap.Base.{true, List, [], ◌∷◌, ◌++◌, Bytes, false, some}
use wxdap.Client.{Client, not_performed, Outcome, on_connection_error, send_response, set_transport}
use wxdap.Client.Receive.{on_message}
use wxdap.Client.Requests.{Call, run_call}
use wxdap.Json.{CJson, Json, Node}
use wxdap.Rpc.{on_data_read}
use wxdap.Protocol.{Response, not_found}

-- A client that has just been made.
abbrev pub new_client : Client
new_client = record {
  transport = false;
  rpc = record { buffer = [] };
  shutdown = false;
  terminated = false;
  reader_thread = false;
  request_sequence = 0;
  handshake_state = not_performed;
  active_thread_id = not_found;
  can_interact = false;
  request_id_to_filepath = [];
  features = [];
  wants_log_events = false;
  get_frames_queue = [];
  get_scopes_queue = [];
  get_variables_queue = [];
  load_sources_queue = [];
  evaluate_queue = [];
  source_breakpoints_queue = [];
  in_flight_requests = [];
}

pub data Input : Type 0 where
  call : Call → Input
  data_read : Bytes → Input
  connection_error new_transport : Input
  -- The reader thread sets the flag `m_terminated`.
  thread_failed : Input
  reply : Response → Input

module _ (c : CJson) where
  open c use {Double}

  -- The values that the buffer gave, one after the other.
  unfoldable pub on_messages : Client → List (Node Double) → Outcome Double
  unfolding on_message
  on_messages s [] = (s, [])
  on_messages s (n ∷ ns) =
      let (s1, effects1) = on_message c s (some n) in
      let (s2, effects2) = on_messages s1 ns in (s2, effects1 ++ effects2)

module _ (c : CJson) (parse : Bytes → Json (c.Double)) where
  open c use {Double}

  -- `OnDataRead`
  unfoldable pub on_data : Client → Bytes → Outcome Double
  unfolding on_data_read
  on_data s chunk =
      let (js, rpc) = on_data_read parse s.rpc chunk in on_messages c (record s { rpc = rpc }) js

module _ (c : CJson) (parse : Bytes → Json (c.Double)) (full_name : Bytes → Bytes) where
  open c use {Double}

  unfoldable pub step : Client → Input → Outcome Double
  unfolding on_data run_call on_connection_error send_response set_transport
  step s (call k) = run_call full_name s k
  step s (data_read chunk) = on_data c parse s chunk
  step s connection_error = on_connection_error s
  step s new_transport = (set_transport s, [])
  step s thread_failed = (record s { terminated = true }, [])
  step s (reply r) = send_response s r

  unfoldable pub run : Client → List Input → Outcome Double
  unfolding step
  run s [] = (s, [])
  run s (i ∷ inputs) =
      let (s1, effects1) = step s i in
      let (s2, effects2) = run s1 inputs in (s2, effects1 ++ effects2)
