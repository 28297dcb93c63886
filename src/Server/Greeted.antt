-- ===== src/Server/Greeted.antt =====
-- The server's answer to the request to initialize, on its way to the client.
use wxdap.Base.{
  sym, ◌≡◌, ◌≢◌, ◌≤◌, refl, ap, ap₂, ◌∙◌, true, none, some, List, [], ◌∷◌, ◌++◌, Bytes, codes, All,
  concat, length, map, append-nil,
}
use wxdap.Client.{
  Client, completed, Effect, dap_event, initialized_event as event_type_initialized,
  initialize_response as response_type_initialize, no_attachment, Outcome,
}
use wxdap.Client.Buffer.{on_rpc}
use wxdap.Client.Chunks.{run-sent}
use wxdap.Client.Handshake.{IsBefore, is_initialize, log_of, on_message_initialize}
use wxdap.Client.Receive.{on_message, dispatch, on_event, on_received, send_dap_event}
use wxdap.Client.Session.{on_messages, run, data_read}
use wxdap.Decimal.{long_max}
use wxdap.Json.Parsed.{IsParsed, IsParsed-some, comparable_json}
use wxdap.Protocol.Registry.Parsed.{from_json-IsParsed}
use wxdap.Json.{CJson, Json, Node, cons, nil, at_name, get_string}
use wxdap.Json.Building.{object, object_node, string_node, int_node, bool_node, building}
use wxdap.Protocol.{
  not_found, response_from, event_from, message_from, response_to, event_to, message_to, Event,
}
use wxdap.Protocol.Registry.{event, from_json, new_message, is_in}
use wxdap.Rpc.Message.{buffered}
use wxdap.Decimal.{ℤ}
use wxdap.Protocol.Requests.{InitializeArguments}
use wxdap.Protocol.Sent.Delivery.{IsPrinted, written}
use wxdap.Server.Handshake.{server_initialize_lem, initialize_request, IsNetRound, chunks_of}
use wxdap.Server.{
  ServerSent, NetRound, server_initialize, initialize_response, initialized_event,
  initialize_response_to, initialized_event_to, server_message_to, server_written,
}

module _ (c : CJson) where
  open c use {Double}

  response_object :
      initialize_response_to c
      ≡ object c (
          cons (int_node c (codes "seq") not_found) (
            cons (string_node c (codes "type") (codes "response")) (
              cons (int_node c (codes "request_seq") not_found) (
                cons (bool_node c (codes "success") true) (
                  cons (string_node c (codes "message") []) (
                    cons
                      (string_node c (codes "command") (codes "initialize"))
                      (cons (object_node c (codes "body") nil) nil)))))))
  unfolding initialize_response_to response_to message_to
  response_object = simp building

  event_object :
      initialized_event_to c
      ≡ object c (
          cons (int_node c (codes "seq") not_found) (
            cons
              (string_node c (codes "type") (codes "event"))
              (cons (string_node c (codes "event") (codes "initialized")) nil)))
  unfolding initialized_event_to event_to message_to
  event_object = simp building

  kept_response : c.through (codes "response") ≡ codes "response"
  kept_response = c.through_lem (codes "response") refl

  kept_initialize : c.through (codes "initialize") ≡ codes "initialize"
  kept_initialize = c.through_lem (codes "initialize") refl

  kept_event : c.through (codes "event") ≡ codes "event"
  kept_event = c.through_lem (codes "event") refl

  kept_initialized : c.through (codes "initialized") ≡ codes "initialized"
  kept_initialized = c.through_lem (codes "initialized") refl

  response_read : is_initialize (from_json c (initialize_response_to c)) ≡ true
  unfolding from_json new_message at_name get_string is_in response_from message_from
  response_read = rw (response_object, kept_response, kept_initialize) refl

  event_read :
      (e : Event) × (from_json c (initialized_event_to c) ≡ some (event e))
      × (e.event ≡ codes "initialized")
  unfolding from_json new_message at_name get_string is_in event_from message_from
  event_read = (
    event_from c (initialized_event_to c),
    rw (event_object, kept_event, kept_initialized) refl,
    rw (event_object, kept_initialized) refl,
  )

  on_event_initialized :
      (s : Client) (e : Event) (j : Json Double)
      → e.event ≡ codes "initialized"
      → on_event c s e j ≡ (s, dap_event event_type_initialized no_attachment j none ∷ [])
  unfolding on_event send_dap_event
  on_event_initialized s e j q = rw q refl

  on_message_initialized :
      (s : Client) (j : Json Double)
      → s.handshake_state ≡ completed
      → IsParsed (initialized_event_to c) j
      → on_message c s j
        ≡ (s, log_of c s j ++ dap_event event_type_initialized no_attachment j none ∷ [])
  unfolding on_message dispatch on_received
  on_message_initialized s j h parsed =
      let (e, is, q) = event_read in
      let taken = from_json-IsParsed c (initialized_event_to c) j parsed ∙ is in
      ap (λ (out : Outcome Double). (out.0, log_of c s j ++ out.1))
        (ap (λ h. dispatch c h s j) h
          ∙ ap (λ m. on_received c s m j) taken
          ∙ on_event_initialized s e j q)

  -- The effects of the response and the event, as the client has parsed them.
  abbrev pub greeting : Client → Json Double → Json Double → List (Effect Double)
  greeting s r e =
      (log_of c s r ++ dap_event response_type_initialize no_attachment r none ∷ [])
      ++ (log_of c s e ++ dap_event event_type_initialized no_attachment e none ∷ [])

  -- The handshake is completed with those effects, and nothing is left in the buffer.
  abbrev pub IsGreeted : Client → Json Double → Json Double → Outcome Double → Type 0
  IsGreeted s r e out =
      (out.0.handshake_state ≡ completed) × (out.0.rpc ≡ buffered []) × (out.1 ≡ greeting s r e)

  two_messages :
      (s : Client) (n m : Node Double)
      → IsBefore s.handshake_state
      → IsParsed (initialize_response_to c) (some n)
      → IsParsed (initialized_event_to c) (some m)
      → IsGreeted s (some n) (some m) (on_rpc (buffered []) (on_messages c s (n ∷ m ∷ [])))
  unfolding on_messages on_rpc
  two_messages s n m h parsed parsed' =
      let r : Json Double = some n in
      let k : Json Double = some m in
      let read = ap is_initialize (from_json-IsParsed c (initialize_response_to c) r parsed) in
      let out = on_message c s r in
      let (first, kept, found) = on_message_initialize c s r [] h (read ∙ response_read) in
      let state : out.0.handshake_state ≡ completed = ap (λ (t : Client). t.handshake_state) kept in
      let second = on_message_initialized out.0 k state parsed' in
      let rest = on_message c out.0 k in
      let shown = λ (t : Client).
        log_of c t k ++ dap_event event_type_initialized no_attachment k none ∷ [] in
      (
        ap (λ (o : Outcome Double). o.0.handshake_state) second ∙ state,
        refl,
        ap₂ (λ l m. l ++ m) first
            (append-nil rest.1 ∙ ap (λ (o : Outcome Double). o.1) second ∙ ap shown kept),
      )

  -- Both are trees, and so is what is parsed of their prints.
  parsed_response :
      (j : Json Double) → IsParsed (initialize_response_to c) j → (n : Node Double) × (j ≡ some n)
  parsed_response j h = IsParsed-some _ j (h ∙ ap comparable_json response_object)

  parsed_event :
      (j : Json Double) → IsParsed (initialized_event_to c) j → (n : Node Double) × (j ≡ some n)
  parsed_event j h = IsParsed-some _ j (h ∙ ap comparable_json event_object)

module _ (c : CJson) (print : Json (c.Double) → Bytes) (parse : Bytes → Json (c.Double))
    (full_name : Bytes → Bytes) where
  open c use {Double}

  -- The print of a message is not empty, not too long, and parsed back to the Json, but for numbers
  -- that nothing reads.
  abbrev pub IsServerPrinted : ServerSent → Type 0
  IsServerPrinted m =
      let payload = print (server_message_to c m) in
      (payload ≢ [])
      × (length payload ≤ long_max)
      × IsParsed (server_message_to c m) (parse payload)

  -- A message as the client has parsed it.
  abbrev pub received : ServerSent → Json Double
  received m = parse (print (server_message_to c m))

  greeted :
      (s : Client) (chunks : List Bytes)
      → s.rpc ≡ buffered []
      → IsBefore s.handshake_state
      → IsServerPrinted initialize_response
      → IsServerPrinted initialized_event
      → concat chunks ≡ server_written c print (initialize_response ∷ initialized_event ∷ [])
      → IsGreeted c s
          (received initialize_response)
          (received initialized_event)
          (run c parse full_name s (map data_read chunks))
  greeted s chunks empty before (filled, short, back) (filled', short', back') e =
      let (n, is) = parsed_response c (received initialize_response) back in
      let (m, is') = parsed_event c (received initialized_event) back' in
      let items =
        (print (initialize_response_to c), n) ∷ (print (initialized_event_to c), m) ∷ [] in
      let ran =
        run-sent c parse full_name s items chunks empty
          ((filled, short, is), ((filled', short', is'), tt)) e in
      let done =
        two_messages c s n m before (ap comparable_json (sym is) ∙ back)
          (ap comparable_json (sym is') ∙ back') in
      rw (ran, is, is') done

  -- A client's request to initialize and the server's answer, each cut into chunks in any way, complete
  -- the client's handshake, with the two events of the response and of the initialized event, in this
  -- order, and nothing left in its buffer; provided that the client's handshake is not completed and
  -- its buffer is empty, that the request's number is of 32 bits, that the request and the two answers
  -- each print to a text that is not empty, no longer than a `long` can tell, and parsed back to its
  -- Json, but for the `valueint` of a node that is not a number, and that the server's socket does not
  -- fail.
  pub handshake_completes :
      (seq : ℤ) (a : InitializeArguments) (rounds : List NetRound) (s : Client)
      (chunks : List Bytes)
      → IsPrinted c print parse (initialize_request seq a)
      → All IsNetRound rounds
      → concat (chunks_of rounds) ≡ written c print parse (initialize_request seq a ∷ [])
      → s.rpc ≡ buffered []
      → IsBefore s.handshake_state
      → IsServerPrinted initialize_response
      → IsServerPrinted initialized_event
      → concat chunks ≡ server_written c print (server_initialize c parse rounds (buffered [])).sent
      → IsGreeted c s
          (received initialize_response)
          (received initialized_event)
          (run c parse full_name s (map data_read chunks))
  handshake_completes seq a rounds s chunks p q arrived empty before response_printed event_printed
        e =
      let (answered, ended) = server_initialize_lem c print parse seq a rounds p q arrived in
      greeted s chunks empty before response_printed event_printed
        (e ∙ ap (server_written c print) answered)
