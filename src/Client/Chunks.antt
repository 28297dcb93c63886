-- ===== src/Client/Chunks.antt =====
-- The chunks that a client reads do not matter, only the messages in them.
use wxdap.Base.{
  ◌≡◌, refl, sym, ap, ◌∙◌, some, List, [], ◌∷◌, ◌++◌, Bytes, map, append_assoc, All, concat,
}
use wxdap.Client.{Client, Outcome, Effect}
use wxdap.Client.Receive.{on_message}
use wxdap.Client.Session.{on_messages, on_data, step, run, data_read}
use wxdap.Json.{CJson, Json, Node}
use wxdap.Rpc.{JsonRpc, feed, on_data_read}
use wxdap.Rpc.Message.{buffered}
use wxdap.Rpc.Sending.{feed-sent, sent, sent_values, IsSendable}
use wxdap.Client.Buffer.{with_rpc, on_rpc, on_messages-with_rpc}

module _ (c : CJson) where
  open c use {Double}

  on_messages-append :
      (s : Client) (xs ys : List (Node Double))
      → let first = on_messages c s xs in
        let rest = on_messages c first.0 ys in
        on_messages c s (xs ++ ys) ≡ (rest.0, first.1 ++ rest.1)
  unfolding on_messages
  on_messages-append s [] ys = refl
  on_messages-append s (x ∷ xs) ys =
      let out = on_message c s (some x) in
      let first = on_messages c out.0 xs in
      let rest = on_messages c first.0 ys in
      let behind : Outcome Double → Outcome Double = λ rest. (rest.0, out.1 ++ rest.1) in
      let keep : List (Effect Double) → Outcome Double = λ effects. (rest.0, effects) in
      ap behind (on_messages-append out.0 xs ys) ∙ ap keep (sym (append_assoc out.1 first.1 rest.1))

module _ (c : CJson) (parse : Bytes → Json (c.Double)) (full_name : Bytes → Bytes) where
  open c use {Double}

  run_chunks :
      (s : Client) (chunks : List Bytes)
      → let (js, rpc) = feed parse s.rpc chunks in
        run c parse full_name s (map data_read chunks) ≡ on_rpc rpc (on_messages c s js)
  unfolding run step on_data on_rpc feed on_messages
  run_chunks s [] = refl
  run_chunks s (chunk ∷ chunks) =
      let (js, rpc) = on_data_read parse s.rpc chunk in
      let (js', rpc') = feed parse rpc chunks in
      let first = on_messages c s js in
      let go_on : Outcome Double → Outcome Double = λ out.
        let rest = run c parse full_name out.0 (map data_read chunks) in
        (rest.0, out.1 ++ rest.1) in
      let behind : Outcome Double → Outcome Double = λ rest. (rest.0, first.1 ++ rest.1) in
      ap go_on (on_messages-with_rpc c rpc s js)
      ∙ ap behind (run_chunks (with_rpc rpc first.0) chunks)
      ∙ ap (λ out. behind (on_rpc rpc' out)) (on_messages-with_rpc c rpc first.0 js')
      ∙ ap (on_rpc rpc') (sym (on_messages-append c s js js'))

  -- What Send of the other side wrote for a row of payloads, read by the client in any chunks, has the
  -- effects and leaves the state that the messages have when they are handled one after the other,
  -- with nothing left in the buffer; provided that the buffer was empty and that each payload parses,
  -- is not empty and is no longer than a `long` can tell.
  pub run-sent :
      (s : Client) (items : List (Bytes × Node Double)) (chunks : List Bytes)
      → s.rpc ≡ buffered []
      → All (IsSendable parse) items
      → concat chunks ≡ sent items
      → run c parse full_name s (map data_read chunks)
        ≡ on_rpc (buffered []) (on_messages c s (sent_values items))
  run-sent s items chunks empty h e =
      run_chunks s chunks
      ∙ ap (λ (out : List (Node Double) × JsonRpc). on_rpc out.1 (on_messages c s out.0))
          (ap (λ rpc. feed parse rpc chunks) empty ∙ feed-sent parse items chunks h e)
