-- ===== src/Client/Answers.antt =====
-- What the numbers give in a session: the answer to a request finds the request.
use wxdap.Base.{
  ℕ, suc, ◌+◌, ◌<◌, ◌≡◌, refl, ap, true, Option, none, some, List, [], ◌∷◌, Bytes, arith, length,
  ◌∙◌,
}
use wxdap.Client.{Client, find_key, make_request, on_connection_error, send_response}
use wxdap.Client.InFlight.{on_message-Keeps}
use wxdap.Client.Keys.{find_key-erase_key_same}
use wxdap.Client.Receive.{get_originating_request}
use wxdap.Rpc.{on_data_read}
use wxdap.Json.{Node}
use wxdap.Client.Receive.{on_message}
use wxdap.Client.Requests.{request_of}
use wxdap.Client.Requests.{request_of}
use wxdap.Client.Session.{
  Input, call, data_read, connection_error, new_transport, thread_failed, reply, step, run, on_data,
  on_messages, new_client,
}
use wxdap.Decimal.{pos}
use wxdap.Json.{CJson, Json}
use wxdap.Protocol.{Response}
use wxdap.Protocol.Requests.{ClientRequest, Arguments}
use wxdap.Client.Numbers.{
  IsEntry, IsNumbered, make_request_lem, later, run_call-IsNumbered, send_response-IsNumbered,
  set_transport-IsNumbered, reset-IsNumbered, find_key-new, find_key-request_of,
}

module _ (c : CJson) (parse : Bytes → Json (c.Double)) (full_name : Bytes → Bytes) where
  open c use {Double}

  on_messages-IsNumbered :
      (n : ℕ) (s : Client) (ns : List (Node Double))
      → IsNumbered n s
      → IsNumbered n (on_messages c s ns).0
  unfolding on_messages
  on_messages-IsNumbered n s [] h = h
  on_messages-IsNumbered n s (j ∷ ns) (h, entries) =
      let (e, keeps) = on_message-Keeps c (IsEntry s.request_sequence) s (some j) in
      let s1 = (on_message c s (some j)).0 in
      on_messages-IsNumbered n s1 ns (rw (e) (h, keeps entries))

  on_data-IsNumbered :
      (n : ℕ) (s : Client) (chunk : Bytes)
      → IsNumbered n s
      → IsNumbered n (on_data c parse s chunk).0
  unfolding on_data
  on_data-IsNumbered n s chunk h =
      let (ns, rpc) = on_data_read parse s.rpc chunk in
      on_messages-IsNumbered n (record s { rpc = rpc }) ns h

  step-IsNumbered :
      (n : ℕ) (s : Client) (i : Input)
      → IsNumbered n s
      → n + 1 < 2147483648
      → IsNumbered (n + 1) (step c parse full_name s i).0
  unfolding step on_connection_error
  step-IsNumbered n s (call k) h small = run_call-IsNumbered Double full_name n s k h small
  step-IsNumbered n s (data_read chunk) h small =
      later n (on_data c parse s chunk).0 (on_data-IsNumbered n s chunk h)
  step-IsNumbered n s connection_error h small = reset-IsNumbered (n + 1) s
  step-IsNumbered n s new_transport h small = set_transport-IsNumbered (n + 1) s
  step-IsNumbered n s thread_failed h small = later n (record s { terminated = true }) h
  step-IsNumbered n s (reply r) h small =
      later n (send_response {D = Double} s r).0 (send_response-IsNumbered Double n s r h)

  run-IsNumbered :
      (n : ℕ) (s : Client) (inputs : List Input)
      → IsNumbered n s
      → n + length inputs < 2147483648
      → IsNumbered (n + length inputs) (run c parse full_name s inputs).0
  unfolding run
  run-IsNumbered n s [] h small = let e0 : n + 0 ≡ n = omega arith in rw (e0) h
  run-IsNumbered n s (i ∷ inputs) h small =
      let s1 = (step c parse full_name s i).0 in
      let e : n + 1 + length inputs ≡ n + suc (length inputs) = omega arith in
      rw⁻¹ (e)
        (run-IsNumbered (n + 1) s1 inputs (step-IsNumbered n s i h (omega arith)) (omega arith))

  -- Two calls of `GetOriginatingRequest` for the answer to a request.
  abbrev pub answered_twice : Client → Response → Option ClientRequest × Option ClientRequest
  answered_twice s r =
      let (first, s1) = get_originating_request s r in
      let (second, s2) = get_originating_request s1 r in (first, second)

  answered_twice_lem :
      (s : Client) (r : Response) (q : ClientRequest)
      → find_key r.request_seq s.in_flight_requests ≡ some q
      → answered_twice s r ≡ (some q, none)
  unfolding get_originating_request
  answered_twice_lem s r q e =
      rw (e, get_originating_request, find_key-erase_key_same r.request_seq s.in_flight_requests)
        refl

  -- In a session of a client that has just been made, of fewer than 2^31 - 1 inputs of any kind: if
  -- the client has a transport, the response with the number of the request that a call makes now
  -- gets that request, once, and a second response with the number gets none.
  pub get_originating_request-request_of :
      (inputs : List Input) (s : Client) (a : Arguments) (r : Response)
      → (run c parse full_name new_client inputs).0 ≡ s
      → length inputs + 1 < 2147483648
      → s.transport ≡ true
      → r.request_seq ≡ (make_request s a).0.seq
      → answered_twice (request_of {D = Double} s a).0 r ≡ (some ((make_request s a).0), none)
  get_originating_request-request_of inputs s a r reached small t e =
      let (h, entries) : IsNumbered (0 + length inputs) s =
        rw⁻¹ (reached) (run-IsNumbered 0 new_client inputs (omega arith, tt) (omega arith)) in
      let next : s.request_sequence + 1 < 2147483648 = omega arith in
      let made = make_request_lem s a next in
      let number : r.request_seq ≡ pos (s.request_sequence + 1) = e ∙ ap (λ p. p.0.seq) made in
      rw (made) (
        answered_twice_lem _ r _ (
          rw (number)
            (find_key-request_of Double s a t next (find_key-new s.request_sequence _ entries))))
