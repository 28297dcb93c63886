-- ===== src/Protocol/Others/RoundTrip.antt =====
-- What `From` reads of the requests that no function of the client makes.
use wxdap.Base.{All, ◌≡◌, refl, ap, ◌∙◌, true, some, codes}
use wxdap.Json.{CJson, Nodes, cons, nil, at_name, get_string, get_integer}
use wxdap.Json.Reading.{get_bool_default}
use wxdap.Json.Building.{object, object_node, string_node, int_node, bool_node, building, IsKept}
use wxdap.Json.Arrays.Filled.{
  array_node, string_nodes, add_strings-object, get_string_array-string_nodes,
}
use wxdap.Protocol.{Request, not_found}
use wxdap.Protocol.Structs.RoundTrip.{read_bool-bool_node}
use wxdap.Protocol.Reading.{RequestArguments, arguments_from, request_message_from}
use wxdap.Protocol.Reading as Read
use wxdap.Protocol.Others.{
  OtherArguments, cancel, disconnect, run_in_terminal, other_class_of, terminal_arguments_to,
  other_request_to,
}
use wxdap.Protocol.Sent.Received.{request_nodes, request_to-object, request_from-Has, IsRequest}

-- What the reader has.
abbrev pub other_read : OtherArguments → RequestArguments
other_read (cancel request_id) = Read.cancel not_found
other_read (disconnect restart terminate_debuggee) = Read.disconnect restart true
other_read (run_in_terminal kind title args) = Read.run_in_terminal kind title args

module _ (c : CJson) where
  open c use {Double}

  abbrev other_nodes : OtherArguments → Nodes Double
  other_nodes (cancel request_id) = cons (int_node c (codes "requestId") request_id) nil
  other_nodes (disconnect restart terminate_debuggee) =
      cons (bool_node c (codes "restart") restart)
        (cons (bool_node c (codes "terminateDebuggee") terminate_debuggee) nil)
  other_nodes (run_in_terminal kind title args) = cons (string_node c (codes "kind") kind) (
      cons (string_node c (codes "title") title)
        (cons (array_node c (codes "args") (string_nodes c args)) nil))

  abbrev whole_nodes : Request → OtherArguments → Nodes Double
  whole_nodes r a = request_nodes c r (cons (object_node c (codes "arguments") (other_nodes a)) nil)

  other_request_to-object :
      (r : Request) (a : OtherArguments) → other_request_to c r a ≡ object c (whole_nodes r a)
  unfolding other_request_to
  other_request_to-object r (cancel request_id) = simp (request_to-object, building)
  other_request_to-object r (disconnect restart terminate_debuggee) =
      simp (request_to-object, building)
  other_request_to-object r (run_in_terminal kind title args) =
      unfold terminal_arguments_to in simp (request_to-object, building, add_strings-object)

  -- The texts are read as they are stored.
  abbrev pub IsOther : OtherArguments → Type 0
  IsOther (run_in_terminal kind title args) = IsKept c kind × IsKept c title × All (IsKept c) args
  IsOther _ = Unit

  arguments_from-other_nodes :
      (a : OtherArguments)
      → IsOther a
      → arguments_from c
          (other_class_of a)
          (some (object_node c (codes "arguments") (other_nodes a)))
        ≡ other_read a
  unfolding arguments_from at_name get_string get_integer
  arguments_from-other_nodes (cancel request_id) h = refl
  arguments_from-other_nodes (disconnect restart terminate_debuggee) h = λ i.
      Read.disconnect (read_bool-bool_node c (codes "restart") restart i)
        (get_bool_default (some (bool_node c (codes "terminateDebuggee") terminate_debuggee)) i)
  arguments_from-other_nodes (run_in_terminal kind title args) (hk, ht, ha) = λ i.
      Read.run_in_terminal (hk i) (ht i) (get_string_array-string_nodes c (codes "args") args ha i)

  read_whole :
      (r : Request) (a : OtherArguments)
      → IsRequest c r
      → IsOther a
      → request_message_from c (other_class_of a) (object c (whole_nodes r a)) ≡ (r, other_read a)
  unfolding request_message_from at_name
  read_whole r a h k = λ i. (
    request_from-Has c r (cons (object_node c (codes "arguments") (other_nodes a)) nil) h i,
    arguments_from-other_nodes a k i,
  )

  -- A request to run a command in a terminal is read back by `From` as `To` wrote it. Of a request
  -- to cancel the identifier is lost: -1 is read, whatever it was. Of one to disconnect
  -- `terminateDebuggee` is read as true, whatever it was. In all three the number, provided that it is of
  -- 32 bits, and the command are as they were; provided that each text, the command among them, is read
  -- as it was stored, as ASCII without a NUL is.
  pub request_message_from-other_request_to :
      (r : Request) (a : OtherArguments)
      → IsRequest c r
      → IsOther a
      → request_message_from c (other_class_of a) (other_request_to c r a) ≡ (r, other_read a)
  request_message_from-other_request_to r a h k =
      ap (request_message_from c (other_class_of a)) (other_request_to-object r a)
      ∙ read_whole r a h k
