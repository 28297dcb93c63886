-- ===== src/Protocol/Others.antt =====
-- dap/dap.cpp: the requests that no function of the client makes: "cancel" and "disconnect", and
-- "runInTerminal", which a server sends.
pub mod RoundTrip
use wxdap.Base.{Bool, List, Bytes, codes}
use wxdap.Decimal.{ℤ}
use wxdap.Json.{CJson, Json}
use wxdap.Json.Build.{create_object, add_string, add_int, add_bool, add_item, add_strings, add_json}
use wxdap.Protocol.{Request, request_to}
use wxdap.Protocol.Reading.{
  RequestClass, cancel_request, disconnect_request, run_in_terminal_request,
}

pub data OtherArguments : Type 0 where
  cancel : (request_id : ℤ) → OtherArguments
  disconnect : (restart terminate_debuggee : Bool) → OtherArguments
  run_in_terminal : (kind title : Bytes) → (args : List Bytes) → OtherArguments

abbrev pub other_class_of : OtherArguments → RequestClass
other_class_of (cancel request_id) = cancel_request
other_class_of (disconnect restart terminate_debuggee) = disconnect_request
other_class_of (run_in_terminal kind title args) = run_in_terminal_request

module _ (c : CJson) where
  open c use {Double}

  unfoldable pub terminal_arguments_to : Bytes → Bytes → List Bytes → Json Double
  terminal_arguments_to kind title args =
      let j = add_string c (create_object c) (codes "kind") kind in
      add_strings c (add_string c j (codes "title") title) (codes "args") args

  abbrev pub cancel_to : Request → ℤ → Json Double
  cancel_to r request_id =
      add_item c (request_to c r) (codes "arguments")
        (add_int c (create_object c) (codes "requestId") request_id)

  abbrev pub disconnect_to : Request → Bool → Bool → Json Double
  disconnect_to r restart terminate_debuggee =
      let arguments = add_bool c (create_object c) (codes "restart") restart in
      add_item c (request_to c r) (codes "arguments")
        (add_bool c arguments (codes "terminateDebuggee") terminate_debuggee)

  abbrev pub run_in_terminal_to : Request → Bytes → Bytes → List Bytes → Json Double
  run_in_terminal_to r kind title args =
      add_json c (request_to c r) (codes "arguments") (terminal_arguments_to kind title args)

  -- `To` of a request with the fields of its base class.
  unfoldable pub other_request_to : Request → OtherArguments → Json Double
  other_request_to r (cancel request_id) = cancel_to r request_id
  other_request_to r (disconnect restart terminate_debuggee) =
      disconnect_to r restart terminate_debuggee
  other_request_to r (run_in_terminal kind title args) = run_in_terminal_to r kind title args
