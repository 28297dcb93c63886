-- ===== src/Protocol/Sent/Received.antt =====
-- A request of the client, as the registry of the other side takes it.
use wxdap.Base.{◌≡◌, Option, refl, ap, ap₂, ◌∙◌, none, some, Bytes, codes, if◌then◌else◌, bytes_eq}
use wxdap.Json.{
  Node, CJson, Json, Nodes, cons, nil, IsInt, IsPlain, with_name, get_string, get_number, at_name,
}
use wxdap.Json.Build.{add_object, add_json}
use wxdap.Json.Building.{object, string_node, int_node, building, IsKept}
use wxdap.Protocol.{read_string, Request, request_to, request_from, message_to, message_from}
use wxdap.Protocol.Arguments.{command_of}
use wxdap.Protocol.Registry.{Received, request, from_json, new_message, is_in, request_names}
use wxdap.Decimal.{ℤ}
use wxdap.Protocol.Requests.{
  configuration_done, threads, scopes, stack_trace, variables_of, pause, ClientRequest, Arguments,
  scopes, stack_trace, variables_of, pause,
}
use wxdap.Protocol.Sent.{base_of, add_arguments, client_request_to}

abbrev request_base : ℤ → Bytes → Request
request_base seq command = record {
  base = record { seq = seq; type = codes "request" };
  command = command;
}

command_of-IsPlain : (a : Arguments) → IsPlain (command_of a)
command_of-IsPlain (pause thread_id) = refl
command_of-IsPlain a = refl

module _ (c : CJson) where
  open c use {Double, to_int-of_int}

  abbrev pub request_nodes : Request → Nodes Double → Nodes Double
  request_nodes r rest = cons (int_node c (codes "seq") r.base.seq) (
      cons (string_node c (codes "type") r.base.type)
        (cons (string_node c (codes "command") r.command) rest))

  pub request_to-object : (r : Request) → request_to c r ≡ object c (request_nodes r nil)
  unfolding request_to message_to
  request_to-object r = simp building

  -- The fields of the base class, and perhaps more behind them.
  abbrev Has : Request → Json Double → Type 0
  Has r j = (rest : Nodes Double) × (j ≡ object c (request_nodes r rest))

  add_object-Has :
      (r : Request) (name : Bytes) (value : Json Double)
      → Has r (add_object c (object c (request_nodes r nil)) name value)
  unfolding add_object
  add_object-Has r name none = (nil, refl)
  add_object-Has r name (some n) =
      (cons (with_name name n) nil, ap some (c.add_item_to_object_lem _ name n))

  add_json-Has :
      (r : Request) (name : Bytes) (value : Json Double)
      → Has r (add_json c (object c (request_nodes r nil)) name value)
  unfolding add_json
  add_json-Has r name value = add_object-Has r name value

  add_arguments-Has :
      (r : Request) (a : Arguments) → Has r (add_arguments c (object c (request_nodes r nil)) a)
  unfolding add_arguments
  add_arguments-Has r configuration_done = (nil, refl)
  add_arguments-Has r threads = (nil, refl)
  add_arguments-Has r (scopes frame_id) = add_json-Has r _ _
  add_arguments-Has r (stack_trace thread_id levels start_frame) = add_json-Has r _ _
  add_arguments-Has r (variables_of reference count hex) = add_json-Has r _ _
  add_arguments-Has r (pause thread_id) = add_json-Has r _ _
  add_arguments-Has r a = add_object-Has r _ _

  pub client_request_to-some :
      (r : ClientRequest) → (n : Node Double) × (client_request_to c r ≡ some n)
  unfolding client_request_to
  client_request_to-some r =
      let (rest, e) = add_arguments-Has (base_of r) r.arguments in
      (_, ap (λ j. add_arguments c j r.arguments) (request_to-object (base_of r)) ∙ e)

  abbrev pub IsRequest : Request → Type 0
  IsRequest r = IsInt r.base.seq × IsKept c r.base.type × IsKept c r.command

  pub request_from-Has :
      (r : Request) (rest : Nodes Double)
      → IsRequest r
      → request_from c (object c (request_nodes r rest)) ≡ r
  unfolding request_from message_from at_name get_string get_number
  request_from-Has r rest (h, type, command) = λ i. record {
    base = record { seq = to_int-of_int r.base.seq h i; type = type i };
    command = command i;
  }

  kept_request : c.through (codes "request") ≡ codes "request"
  kept_request = c.through_lem (codes "request") refl

  from_json-Has :
      (seq : ℤ) (command : Bytes) (rest : Nodes Double)
      → IsInt seq
      → IsKept c command
      → from_json c (object c (request_nodes (request_base seq command) rest))
        ≡ (if is_in command request_names then some (request (request_base seq command)) else none)
  unfolding from_json new_message at_name get_string
  from_json-Has seq command rest h kept =
      let j = object c (request_nodes (request_base seq command) rest) in
      let named : Bytes → Bytes → Option Received = λ type name.
        new_message c type
          (if bytes_eq type (codes "event") then read_string c j (codes "event") else name) j in
      ap₂ named kept_request kept
      ∙ ap (λ q. if is_in command request_names then some (request q) else none)
          (request_from-Has (request_base seq command) rest (h, kept_request, kept))

  pub command_of-IsKept : (a : Arguments) → IsKept c (command_of a)
  command_of-IsKept a = c.through_lem (command_of a) (command_of-IsPlain a)

  registered :
      (a : Arguments) (x : Received)
      → (if is_in (command_of a) request_names then some x else none)
        ≡ (if bytes_eq (command_of a) (codes "variables") then none else some x)
  unfolding is_in
  registered (variables_of reference count hex) x = refl
  registered a x = refl

  -- Every request that the client makes is taken by the registry as a request with the number and
  -- the command that it was made with; but for the request for variables, whose class is not
  -- registered from the start, and which is taken as nothing.
  pub from_json-client_request_to :
      (r : ClientRequest)
      → IsInt r.seq
      → from_json c (client_request_to c r) ≡ (
          if bytes_eq (command_of r.arguments) (codes "variables")
          then none
          else some (request (base_of r)))
  unfolding client_request_to
  from_json-client_request_to r h =
      let (rest, e) = add_arguments-Has (base_of r) r.arguments in
      ap (λ j. from_json c (add_arguments c j r.arguments)) (request_to-object (base_of r))
      ∙ ap (from_json c) e
      ∙ from_json-Has r.seq (command_of r.arguments) rest h (command_of-IsKept r.arguments)
      ∙ registered r.arguments (request (base_of r))
