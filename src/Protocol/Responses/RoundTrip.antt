-- ===== src/Protocol/Responses/RoundTrip.antt =====
-- The responses that `To` writes are read back by `From`.
use wxdap.Base.{◌≡◌, ap, ◌∙◌, Option, codes}
use wxdap.Json.{CJson, Json, Nodes, cons, nil, IsInt, get_string, get_number, get_integer, at_name}
use wxdap.Json.Building.{
  object, object_node, string_node, int_node, bool_node, building, add_item-object, IsKept,
}
use wxdap.Protocol.{Response, response_to, response_from, message_to, message_from}
use wxdap.Protocol.Requests.{
  SourceResponse, source_response_from, evaluate_response_from, EvaluateResponse,
}
use wxdap.Protocol.Structs.RoundTrip.{read_bool-bool_node}
use wxdap.Protocol.Responses.{
  ResponseBody, empty, response_class_of, ResponseMessage, add_body, response_message_to,
  response_body_from, response_message_from, source_response_to, evaluate_response_to,
}
use wxdap.Protocol.Responses.Bodies.{
  IsResponseBody, body_read, response_body_nodes, written_body, response_body_to-object,
  response_body_from-object,
}

module _ (c : CJson) where
  open c use {Double, of_int, to_int-of_int, to_bool, to_bool-of_int}

  abbrev response_nodes : Response → Nodes Double → Nodes Double
  response_nodes r rest = cons (int_node c (codes "seq") r.base.seq) (
      cons (string_node c (codes "type") r.base.type) (
        cons (int_node c (codes "request_seq") r.request_seq) (
          cons (bool_node c (codes "success") r.success) (
            cons (string_node c (codes "message") r.message)
              (cons (string_node c (codes "command") r.command) rest)))))

  response_to-object : (r : Response) → response_to c r ≡ object c (response_nodes r nil)
  unfolding response_to message_to
  response_to-object r = simp building

  abbrev pub IsResponse : Response → Type 0
  IsResponse r =
      IsInt r.base.seq
      × IsInt r.request_seq
      × IsKept c r.base.type
      × IsKept c r.message
      × IsKept c r.command

  response_from-object :
      (r : Response) (rest : Nodes Double)
      → IsResponse r
      → response_from c (object c (response_nodes r rest)) ≡ r
  unfolding response_from message_from at_name get_string get_number get_integer
  response_from-object r rest (seq, request_seq, type, message, command) = λ i. record {
    base = record { seq = to_int-of_int r.base.seq seq i; type = type i };
    request_seq = to_int-of_int r.request_seq request_seq i;
    success = read_bool-bool_node c (codes "success") r.success i;
    message = message i;
    command = command i;
  }

  whole : Response → Option (Json Double) → Json Double
  whole r body = add_body c (object c (response_nodes r nil)) body

  read_response :
      (r : Response) (b : ResponseBody)
      → IsResponse r
      → IsResponseBody c b
      → response_message_from c (response_class_of b) (whole r (written_body c b))
        ≡ record { base = r; body = body_read b }
  unfolding response_message_from whole add_body
  read_response r empty h hb =
      unfold response_body_from in
      λ i. record { base = response_from-object r nil h i; body = empty }
  read_response r b h hb =
      ap (response_message_from c (response_class_of b))
        (add_item-object c (response_nodes r nil) (codes "body") (response_body_nodes c b))
      ∙ (unfold at_name in
          λ i. record {
            base =
                response_from-object r
                  (cons (object_node c (codes "body") (response_body_nodes c b)) nil) h i;
            body = response_body_from-object c b hb i;
          })

  -- Every response of a class with a body that is a list, a flag or a process (or with none) is read
  -- back by `From` as `To` wrote it, each list in order and with every element, but for two fields: the
  -- lines of a breakpoint location are lost (-1 is read), and `allThreadsContinued` is read as true
  -- whatever it was; provided that its numbers are of 32 bits, that no source has a negative
  -- reference, and that each text is read as it was stored, as ASCII without a NUL is.
  pub response_message_from-to :
      (r : ResponseMessage)
      → IsResponse r.base
      → IsResponseBody c r.body
      → response_message_from c (response_class_of r.body) (response_message_to c r)
        ≡ record { base = r.base; body = body_read r.body }
  unfolding response_message_to
  response_message_from-to r h hb =
      rw (response_to-object r.base, response_body_to-object c r.body)
        (unfold whole in read_response r.base r.body h hb)

  abbrev source_rest : SourceResponse → Nodes Double
  source_rest r =
      cons
        (object_node c (codes "body") (
          cons (string_node c (codes "content") r.content)
            (cons (string_node c (codes "mimeType") r.mime_type) nil)))
        nil

  -- The response to a "source" request is read back by `From` as `To` wrote it, provided that its
  -- sequence numbers are of 32 bits and its texts are read as they were stored.
  pub source_response_from-to :
      (r : SourceResponse)
      → IsResponse r.base
      → IsKept c r.content
      → IsKept c r.mime_type
      → source_response_from c (source_response_to c r) ≡ r
  unfolding source_response_from source_response_to at_name get_string
  source_response_from-to r h content mime = rw (response_to-object r.base) (
      simp building (λ i. record {
        base = response_from-object r.base (source_rest r) h i;
        content = content i;
        mime_type = mime i;
      }))

  abbrev evaluate_rest : EvaluateResponse → Nodes Double
  evaluate_rest r =
      cons
        (object_node c (codes "body") (
          cons (string_node c (codes "result") r.result) (
            cons (string_node c (codes "type") r.type)
              (cons (int_node c (codes "variablesReference") r.variables_reference) nil))))
        nil

  -- The response to an "evaluate" request is read back by `From` as `To` wrote it, provided that its
  -- numbers are of 32 bits and its texts are read as they were stored.
  pub evaluate_response_from-to :
      (r : EvaluateResponse)
      → IsResponse r.base
      → IsInt r.variables_reference
      → IsKept c r.result
      → IsKept c r.type
      → evaluate_response_from c (evaluate_response_to c r) ≡ r
  unfolding evaluate_response_from evaluate_response_to at_name get_string get_number
  evaluate_response_from-to r h hv result type = rw (response_to-object r.base) (
      simp building (λ i. record {
        base = response_from-object r.base (evaluate_rest r) h i;
        result = result i;
        type = type i;
        variables_reference = to_int-of_int r.variables_reference hv i;
      }))
