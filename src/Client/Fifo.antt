-- ===== src/Client/Fifo.antt =====
-- The callbacks over a whole session that stays connected.
use wxdap.Base.{
  ℕ, ◌≡◌, refl, sym, ap, ◌∙◌, true, List, [], ◌∷◌, ◌++◌, All, Bool-cases, inl, inr, Bytes,
  append_assoc, append-nil, some,
}
use wxdap.Client.{Client, Effect, Outcome, send_response}
use wxdap.Client.Callbacks.{evaluated_by, loaded_by, evaluated_in, loaded_in, on_message-Conserves}
use wxdap.Client.Order.{evaluate_asked, source_asked, IsQuiet, Moves, run_call-Moves}
use wxdap.Client.Receive.{on_message}
use wxdap.Client.Session.{
  Input, call, data_read, connection_error, new_transport, thread_failed, reply, step, run, on_data,
  on_messages,
}
use wxdap.Json.{CJson, Json, Node}
use wxdap.Protocol.{Response}
use wxdap.Rpc.{on_data_read}

module _ {D : Type 0} where
  evaluated_in-append :
      (es fs : List (Effect D)) → evaluated_in (es ++ fs) ≡ evaluated_in es ++ evaluated_in fs
  evaluated_in-append [] fs = refl
  evaluated_in-append (e ∷ es) fs =
      ap (λ l. evaluated_by e ++ l) (evaluated_in-append es fs)
      ∙ sym (append_assoc (evaluated_by e) _ _)

  loaded_in-append : (es fs : List (Effect D)) → loaded_in (es ++ fs) ≡ loaded_in es ++ loaded_in fs
  loaded_in-append [] fs = refl
  loaded_in-append (e ∷ es) fs =
      ap (λ l. loaded_by e ++ l) (loaded_in-append es fs) ∙ sym (append_assoc (loaded_by e) _ _)

-- The callbacks asked for in a row of inputs.
abbrev pub all_asked : (Input → List ℕ) → List Input → List ℕ
all_asked asked [] = []
all_asked asked (i ∷ inputs) = asked i ++ all_asked asked inputs

-- Two moves of a queue, one after the other.
compose :
    (q0 a1 e1 q1 a2 e2 q2 : List ℕ)
    → q0 ++ a1 ≡ e1 ++ q1
    → q1 ++ a2 ≡ e2 ++ q2
    → q0 ++ (a1 ++ a2) ≡ (e1 ++ e2) ++ q2
compose q0 a1 e1 q1 a2 e2 q2 h k =
    sym (append_assoc q0 a1 a2)
    ∙ ap (λ l. l ++ a2) h
    ∙ append_assoc e1 q1 a2
    ∙ ap (λ l. e1 ++ l) k
    ∙ sym (append_assoc e1 e2 q2)

module _ (D : Type 0) where
  send_response-Moves :
      (s : Client) (r : Response) → s.transport ≡ true → Moves s [] [] (send_response {D = D} s r)
  unfolding send_response
  send_response-Moves s r h = elim (Bool-cases s.wants_log_events) [
    | inl w ↦ rw (h, send_response, w) (refl, append-nil _, append-nil _)
    | inr w ↦ rw (h, send_response, w) (refl, append-nil _, append-nil _)
  ]

module _ {D : Type 0} where
  chain :
      (s : Client) (a l a' l' : List ℕ) (out out' : Outcome D)
      → Moves s a l out
      → Moves out.0 a' l' out'
      → Moves s (a ++ a') (l ++ l') (out'.0, out.1 ++ out'.1)
  chain s a l a' l' out out' (h, e, e2) (h', e', e2') = (
    h',
    compose _ a _ _ a' _ _ e e'
        ∙ ap (λ x. x ++ out'.0.evaluate_queue) (sym (evaluated_in-append out.1 out'.1)),
    compose _ l _ _ l' _ _ e2 e2'
        ∙ ap (λ x. x ++ out'.0.load_sources_queue) (sym (loaded_in-append out.1 out'.1)),
  )

module _ (c : CJson) (parse : Bytes → Json (c.Double)) (full_name : Bytes → Bytes) where
  open c use {Double}

  on_messages-Moves :
      (s : Client) (ns : List (Node Double))
      → s.transport ≡ true
      → Moves s [] [] (on_messages c s ns)
  unfolding on_messages
  on_messages-Moves s [] h = (h, append-nil _, append-nil _)
  on_messages-Moves s (n ∷ ns) h =
      let (t, e, l) = on_message-Conserves c s (some n) in
      let out = on_message c s (some n) in
      chain s [] [] [] [] out (on_messages c out.0 ns) (t ∙ h, append-nil _ ∙ e, append-nil _ ∙ l)
        (on_messages-Moves out.0 ns (t ∙ h))

  step-Moves :
      (s : Client) (i : Input)
      → s.transport ≡ true
      → IsQuiet i
      → Moves s (evaluate_asked i) (source_asked i) (step c parse full_name s i)
  unfolding step on_data
  step-Moves s (call k) h quiet = run_call-Moves Double full_name s k h
  step-Moves s (data_read chunk) h quiet =
      let (ns, rpc) = on_data_read parse s.rpc chunk in
      on_messages-Moves (record s { rpc = rpc }) ns h
  step-Moves s connection_error h quiet = absurd quiet
  step-Moves s new_transport h quiet = absurd quiet
  step-Moves s thread_failed h quiet = (h, append-nil _, append-nil _)
  step-Moves s (reply r) h quiet = send_response-Moves Double s r h

  -- While a client has a transport, and no input takes it away, every callback given to
  -- `EvaluateExpression`, and every one given to a `LoadSource` of a source with a positive reference,
  -- is either called or waits in its queue, in the order in which they were given: those that waited
  -- before, and then those given, are those called and then those that wait, each one once.
  pub run-Moves :
      (s : Client) (inputs : List Input)
      → s.transport ≡ true
      → All IsQuiet inputs
      → Moves s
          (all_asked evaluate_asked inputs)
          (all_asked source_asked inputs)
          (run c parse full_name s inputs)
  unfolding run
  run-Moves s [] h quiet = (h, append-nil _, append-nil _)
  run-Moves s (i ∷ inputs) h (q, quiet) =
      let moved = step-Moves s i h q in
      let out = step c parse full_name s i in
      chain s (evaluate_asked i) (source_asked i) _ _ out (run c parse full_name out.0 inputs) moved
        (run-Moves out.0 inputs moved.0 quiet)
