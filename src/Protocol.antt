-- ===== src/Protocol.antt =====
-- dap/dap.hpp and dap/dap.cpp: the messages of the protocol, with their `To()` and `From()`. A base
-- class is a field `base`; `From` of an object that `ObjGenerator` has just made is a function of the
-- Json alone, with the class's defaults.
pub mod Structs
pub mod Events
pub mod Registry
pub mod Requests
pub mod Arguments
pub mod Items
pub mod Responses
pub mod Reading
pub mod Others
pub mod Modules
pub mod Sent
pub mod Defaults
use wxdap.Base.{
  ℕ, Bool, true, false, ◌&&◌, ◌||◌, not, Option, none, some, [], Bytes, codes, bytes_eq, ltb,
}
use wxdap.Decimal.{ℤ, pos, negsuc}
use wxdap.Json.{CJson, Json, get_string, get_number, get_integer, get_bool, at_name}
use wxdap.Json.Build.{create_object, add_string, add_int, add_bool, add_object, add_item}

pub record ProtocolMessage : Type 0 where
  pub seq : ℤ
  pub type : Bytes

pub record Request : Type 0 where
  pub base : ProtocolMessage
  pub command : Bytes

pub record Event : Type 0 where
  pub base : ProtocolMessage
  pub event : Bytes

pub record Response : Type 0 where
  pub base : ProtocolMessage
  pub request_seq : ℤ
  pub success : Bool
  pub message : Bytes
  pub command : Bytes

pub record Source : Type 0 where
  pub name : Bytes
  pub path : Bytes
  pub source_reference : ℤ

pub record Breakpoint : Type 0 where
  pub id : ℤ
  pub verified : Bool
  pub message : Bytes
  pub source : Source
  pub line : ℤ
  pub column : ℤ
  pub end_line : ℤ
  pub end_column : ℤ

-- -1, the default of `GetInteger` and `GetNumber`; also wxNOT_FOUND.
abbrev pub not_found : ℤ
not_found = negsuc 0

module _ (c : CJson) where
  open c use {Double, of_int, to_int}

  abbrev pub read_string : Json Double → Bytes → Bytes
  read_string j name = get_string (at_name j name) []

  abbrev pub read_int : Json Double → Bytes → ℤ
  read_int j name = get_integer (at_name j name) not_found

  abbrev pub read_bool : Json Double → Bytes → Bool
  read_bool j name = get_bool (at_name j name) false

  -- `GetNumber` converted to `int`.
  abbrev pub read_number : Json Double → Bytes → ℤ → ℤ
  read_number j name default = to_int (get_number (at_name j name) (of_int default))

  unfoldable pub message_to : ProtocolMessage → Json Double
  message_to m =
      add_string c (add_int c (create_object c) (codes "seq") m.seq) (codes "type") m.type

  unfoldable pub message_from : Json Double → ProtocolMessage
  message_from j = record {
    seq = read_number j (codes "seq") not_found;
    type = read_string j (codes "type");
  }

  unfoldable pub request_to : Request → Json Double
  unfolding message_to
  request_to r = add_string c (message_to r.base) (codes "command") r.command

  unfoldable pub request_from : Json Double → Request
  unfolding message_from
  request_from j = record { base = message_from j; command = read_string j (codes "command") }

  unfoldable pub event_to : Event → Json Double
  unfolding message_to
  event_to e = add_string c (message_to e.base) (codes "event") e.event

  unfoldable pub event_from : Json Double → Event
  unfolding message_from
  event_from j = record { base = message_from j; event = read_string j (codes "event") }

  unfoldable pub response_to : Response → Json Double
  unfolding message_to
  response_to r =
      let a = add_int c (message_to r.base) (codes "request_seq") r.request_seq in
      let b = add_bool c a (codes "success") r.success in
      add_string c (add_string c b (codes "message") r.message) (codes "command") r.command

  unfoldable pub response_from : Json Double → Response
  unfolding message_from
  response_from j = record {
    base = message_from j;
    request_seq = read_int j (codes "request_seq");
    success = read_bool j (codes "success");
    message = read_string j (codes "message");
    command = read_string j (codes "command");
  }
