-- ===== src/Protocol/Registry.antt =====
-- dap/dap.cpp, `Initialize` and `ObjGenerator`: the classes by name, and the message that a Json makes.
-- The registry is the one that `Initialize` leaves; a class that registers itself later, when one of it
-- is made (`VariablesRequest`), is not in it. Of a message only the part of its base class is kept.
pub mod Parsed
use wxdap.Base.{
  Bool, false, ◌||◌, Option, none, some, List, [], ◌∷◌, Bytes, codes, bytes_eq, if◌then◌else◌,
}
use wxdap.Json.{CJson, Json}
use wxdap.Protocol.{Request, Response, Event, request_from, response_from, event_from, read_string}

abbrev pub request_names : List Bytes
request_names =
    codes "cancel"
    ∷ codes "initialize"
    ∷ codes "breakpointLocations"
    ∷ codes "configurationDone"
    ∷ codes "launch"
    ∷ codes "disconnect"
    ∷ codes "setBreakpoints"
    ∷ codes "setFunctionBreakpoints"
    ∷ codes "continue"
    ∷ codes "next"
    ∷ codes "step"
    ∷ codes "stepIn"
    ∷ codes "stepOut"
    ∷ codes "threads"
    ∷ codes "scopes"
    ∷ codes "stackTrace"
    ∷ codes "pause"
    ∷ codes "runInTerminal"
    ∷ codes "source"
    ∷ codes "evaluate"
    ∷ codes "attach"
    ∷ []

abbrev pub event_names : List Bytes
event_names =
    codes "initialized"
    ∷ codes "stopped"
    ∷ codes "continued"
    ∷ codes "exited"
    ∷ codes "terminated"
    ∷ codes "thread"
    ∷ codes "output"
    ∷ codes "breakpoint"
    ∷ codes "process"
    ∷ codes "module"
    ∷ codes ""
    ∷ []

abbrev pub response_names : List Bytes
response_names =
    codes "initialize"
    ∷ codes "cancel"
    ∷ codes "configurationDone"
    ∷ codes "launch"
    ∷ codes "disconnect"
    ∷ codes "breakpointLocations"
    ∷ codes "setBreakpoints"
    ∷ codes "setFunctionBreakpoints"
    ∷ codes "continue"
    ∷ codes "next"
    ∷ codes "stepIn"
    ∷ codes "stepOut"
    ∷ codes "threads"
    ∷ codes "scopes"
    ∷ codes "stackTrace"
    ∷ codes "variables"
    ∷ codes "pause"
    ∷ codes "runInTerminal"
    ∷ codes "source"
    ∷ codes "evaluate"
    ∷ codes "attach"
    ∷ codes ""
    ∷ []

unfoldable pub is_in : Bytes → List Bytes → Bool
is_in name [] = false
is_in name (n ∷ names) = bytes_eq n name || is_in name names

pub data Received : Type 0 where
  request : Request → Received
  response : Response → Received
  event : Event → Received

module _ (c : CJson) where
  open c use {Double}

  -- `New(type, name)`, and `From`.
  unfoldable pub new_message : Bytes → Bytes → Json Double → Option Received
  unfolding is_in
  new_message type name j =
      if bytes_eq type (codes "response")
      then if is_in name response_names then some (response (response_from c j)) else none
      else if bytes_eq type (codes "request")
      then if is_in name request_names then some (request (request_from c j)) else none
      else if bytes_eq type (codes "event")
      then if is_in name event_names then some (event (event_from c j)) else none
      else none

  unfoldable pub from_json : Json Double → Option Received
  unfolding new_message
  from_json none = none
  from_json (some n) =
      let type = read_string c (some n) (codes "type") in
      let command =
        if bytes_eq type (codes "event")
        then read_string c (some n) (codes "event")
        else read_string c (some n) (codes "command") in
      new_message type command (some n)
