-- ===== src/Server/Handshake.antt =====
-- A client's request to initialize, and the loop of `ServerProtocol::Initialize`.
use wxdap.Base.{◌≡◌, ◌≢◌, refl, ap, some, List, [], ◌∷◌, ◌++◌, Bytes, All, concat, append-nil_left}
use wxdap.Decimal.{ℤ}
use wxdap.Json.{CJson, Json, Node}
use wxdap.Protocol.Registry.{from_json}
use wxdap.Protocol.Requests.{ClientRequest, InitializeArguments, initialize}
use wxdap.Protocol.Sent.Delivery.{IsPrinted, written, payload_of, parsed, from_json-parsed, taken}
use wxdap.Rpc.{JsonRpc, feed, on_data_read}
use wxdap.Rpc.Message.{buffered}
use wxdap.Rpc.Sending.{feed-sent}
use wxdap.Server.{
  NetRound, quiet, broken, arrived, initialize_response, initialized_event, Initialized, done_or,
  answers_to, all_answers, server_initialize,
}
use wxdap.Transport.Sockets.{returned}

-- No round breaks, and what arrives is not empty.
abbrev pub IsNetRound : NetRound → Type 0
IsNetRound quiet = Unit
IsNetRound broken = ⊥
IsNetRound (arrived s) = s ≢ []

abbrev pub chunks_of : List NetRound → List Bytes
chunks_of [] = []
chunks_of (arrived s ∷ rounds) = s ∷ chunks_of rounds
chunks_of (r ∷ rounds) = chunks_of rounds

-- The response and the event, and nothing else.
abbrev pub IsHandshake : Initialized → Type 0
IsHandshake out = (out.sent ≡ initialize_response ∷ initialized_event ∷ []) × (out.ended ≡ returned)

module _ (c : CJson) (parse : Bytes → Json (c.Double)) where
  open c use {Double}

  -- The values of a chunk and of those behind it: the one message is among the first, or comes later.
  turn :
      (values others : List (Node Double)) (n : Node Double) (rpc : JsonRpc) (later : Initialized)
      → answers_to c n ≡ initialize_response ∷ initialized_event ∷ []
      → values ++ others ≡ n ∷ []
      → (others ≡ n ∷ [] → IsHandshake later)
      → IsHandshake (done_or (all_answers c values) rpc later)
  unfolding done_or all_answers
  turn [] others n rpc later a e go = go e
  turn (m ∷ values) others n rpc later a e go =
      let first : m ≡ n = cc in
      let rest : values ≡ [] = append-nil_left values others cc in rw (first, a, rest) (refl, refl)

  one_message :
      (rounds : List NetRound) (rpc : JsonRpc) (n : Node Double)
      → answers_to c n ≡ initialize_response ∷ initialized_event ∷ []
      → All IsNetRound rounds
      → (feed parse rpc (chunks_of rounds)).0 ≡ n ∷ []
      → IsHandshake (server_initialize c parse rounds rpc)
  unfolding server_initialize feed
  one_message [] rpc n a h e = absurd (cc)
  one_message (quiet ∷ rounds) rpc n a (h, hs) e = one_message rounds rpc n a hs e
  one_message (broken ∷ rounds) rpc n a (h, hs) e = absurd h
  one_message (arrived [] ∷ rounds) rpc n a (h, hs) e = absurd (h refl)
  one_message (arrived (b ∷ s) ∷ rounds) rpc n a (h, hs) e =
      let out = on_data_read parse rpc (b ∷ s) in
      turn out.0 (feed parse out.1 (chunks_of rounds)).0 n out.1
        (server_initialize c parse rounds out.1) a e
        (λ later. one_message rounds out.1 n a hs later)

abbrev pub initialize_request : ℤ → InitializeArguments → ClientRequest
initialize_request seq a = record { seq = seq; arguments = initialize a }

module _ (c : CJson) (print : Json (c.Double) → Bytes) (parse : Bytes → Json (c.Double)) where
  open c use {Double}

  request_answered :
      (seq : ℤ) (a : InitializeArguments) (n : Node Double)
      → from_json c (some n) ≡ taken (initialize_request seq a)
      → answers_to c n ≡ initialize_response ∷ initialized_event ∷ []
  unfolding answers_to
  request_answered seq a n e = rw (e, answers_to) refl

  -- A client's request to initialize, whose bytes reach the server in any chunks and with any pauses,
  -- ends the loop of `Initialize`, which sends the response and the event, each once and in this
  -- order; provided that the request prints to a text that is not empty, no longer than a `long` can
  -- tell, and parsed back to its Json, but for the `valueint` of a node that is not a number, that its
  -- number is of 32 bits, and that the socket does not fail.
  pub server_initialize_lem :
      (seq : ℤ) (a : InitializeArguments) (rounds : List NetRound)
      → IsPrinted c print parse (initialize_request seq a)
      → All IsNetRound rounds
      → concat (chunks_of rounds) ≡ written c print parse (initialize_request seq a ∷ [])
      → IsHandshake (server_initialize c parse rounds (buffered []))
  server_initialize_lem seq a rounds (filled, short, parsed_back, small) h e =
      let r = initialize_request seq a in
      let (n, is) = parsed c print parse r parsed_back in
      let fed =
        feed-sent parse ((payload_of c print parse r, n) ∷ []) (chunks_of rounds)
          ((filled, short, is), tt) e in
      one_message c parse rounds (buffered []) n
        (request_answered seq a n (from_json-parsed c print parse r parsed_back small)) h
        (ap (λ (out : List (Node Double) × JsonRpc). out.0) fed)
