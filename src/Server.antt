-- ===== src/Server.antt =====
-- dap/ServerProtocol.cpp: the server's side of a connection. `parse` is `Json::Parse`. A message that is
-- sent is taken to arrive at the system; one that is not would throw.
pub mod Handshake
pub mod Greeted
use wxdap.Base.{
  Bool, true, false, ◌&&◌, Option, none, some, List, [], ◌∷◌, ◌++◌, Bytes, codes, bytes_eq,
  if◌then◌else◌,
}
use wxdap.Json.Build.{add_item, create_object}
use wxdap.Protocol.{Response, not_found, response_to, event_to}
use wxdap.Json.{CJson, Json, Node}
use wxdap.Protocol.Registry.{Received, request, from_json, response, event}
use wxdap.Rpc.{network_buffer, JsonRpc, append_buffer, process_buffer}
use wxdap.Transport.Sockets.{Ended, returned, thrown, running}

-- A round of the loop: nothing to read, bytes, or an exception of the socket.
pub data NetRound : Type 0 where
  quiet broken : NetRound
  arrived : Bytes → NetRound

pub data ServerSent : Type 0 where
  initialize_response initialized_event : ServerSent

pub record Initialized : Type 0 where
  pub sent : List ServerSent
  pub rpc : JsonRpc
  pub ended : Ended

-- What is sent so far ends the loop, or there is more to do.
unfoldable pub done_or : List ServerSent → JsonRpc → Initialized → Initialized
done_or [] rpc later = later
done_or (m ∷ ms) rpc later = record { sent = m ∷ ms; rpc = rpc; ended = returned }

module _ (c : CJson) where
  open c use {Double}

  -- The callback of `Initialize`: a request of the class `InitializeRequest` is answered.
  unfoldable pub answers_to : Node Double → List ServerSent
  unfolding from_json
  answers_to n = elim (from_json c (some n)) [
    | none ↦ []
    | some message ↦ elim message [
      | request r ↦
          if bytes_eq r.base.type (codes "request") && bytes_eq r.command (codes "initialize")
          then initialize_response ∷ initialized_event ∷ []
          else []
      | response r ↦ []
      | event e ↦ []
    ]
  ]

  unfoldable pub all_answers : List (Node Double) → List ServerSent
  unfolding answers_to
  all_answers [] = []
  all_answers (n ∷ ns) = answers_to n ++ all_answers ns

  -- `To` of a new `InitializeResponse`, and of a new `InitializedEvent`.
  unfoldable pub initialize_response_to : Json Double
  unfolding response_to
  initialize_response_to =
      let r : Response = record {
        base = record { seq = not_found; type = codes "response" };
        request_seq = not_found;
        success = true;
        message = [];
        command = codes "initialize";
      } in
      add_item c (response_to c r) (codes "body") (create_object c)

  unfoldable pub initialized_event_to : Json Double
  unfolding event_to
  initialized_event_to = event_to c (record {
    base = record { seq = not_found; type = codes "event" };
    event = codes "initialized";
  })

  abbrev pub server_message_to : ServerSent → Json Double
  server_message_to initialize_response = initialize_response_to
  server_message_to initialized_event = initialized_event_to

  -- The messages that the callback of `Check` is given.
  unfoldable pub recognized : List (Node Double) → List Received
  unfolding from_json
  recognized [] = []
  recognized (n ∷ ns) = elim (from_json c (some n)) [
    | none ↦ recognized ns
    | some message ↦ message ∷ recognized ns
  ]

module _ (c : CJson) (parse : Bytes → Json (c.Double)) where
  open c use {Double}

  -- `Initialize`, where the state `kDone` ends the loop.
  unfoldable pub server_initialize : List NetRound → JsonRpc → Initialized
  unfolding process_buffer append_buffer all_answers done_or
  server_initialize [] rpc = record { sent = []; rpc = rpc; ended = running }
  server_initialize (quiet ∷ rounds) rpc = server_initialize rounds rpc
  server_initialize (broken ∷ rounds) rpc = record { sent = []; rpc = rpc; ended = thrown }
  server_initialize (arrived network_buffer ∷ rounds) rpc =
      let (values, rpc') = process_buffer parse (append_buffer rpc network_buffer) in
      done_or (all_answers c values) rpc' (server_initialize rounds rpc')

  -- `Check`, with what was read, which may be nothing, and with a callback or without.
  unfoldable pub server_check : Bool → Bytes → JsonRpc → List Received × JsonRpc
  unfolding process_buffer append_buffer recognized
  server_check registered content rpc =
      let (values, rpc') = process_buffer parse (append_buffer rpc content) in
      if registered then (recognized c values, rpc') else ([], rpc)

module _ (c : CJson) (print : Json (c.Double) → Bytes) where
  -- What `Send` gives the connection.
  abbrev pub server_written : List ServerSent → Bytes
  server_written [] = []
  server_written (m ∷ ms) = network_buffer (print (server_message_to c m)) ++ server_written ms
