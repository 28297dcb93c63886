-- ===== src/Client/Handshake.antt =====
-- The handshake: what the answer to a client's initialize request does, and the features that it turns
-- on.
use wxdap.Base.{
  ◌≡◌, refl, ap, Bool, true, false, ◌&&◌, ◌||◌, Option, none, some, List, [], ◌∷◌, ◌++◌, inl, inr,
  Bytes, Bool-cases, codes, bytes_eq, eq_of_bytes_eq, arith, if◌then◌else◌,
}
use wxdap.Client.{
  Client, HandshakeState, not_performed, in_progress, completed, Effect, log_received, dap_event,
  initialize_response, no_attachment,
}
use wxdap.Client.Receive.{
  on_message, dispatch, on_handshake, enable_features, feature_names, send_dap_event,
}
use wxdap.Client.Requests.{is_supported}
use wxdap.Json.{CJson, Json, at_name, get_bool}
use wxdap.Protocol.Registry.{Received, request, response, event, from_json, is_in}

-- A response to an initialize request.
abbrev pub is_initialize : Option Received → Bool
is_initialize none = false
is_initialize (some (request r)) = false
is_initialize (some (event e)) = false
is_initialize (some (response r)) =
    bytes_eq r.base.type (codes "response") && bytes_eq r.command (codes "initialize")

abbrev pub IsBefore : HandshakeState → Type 0
IsBefore completed = ⊥
IsBefore _ = Unit {0}

-- The message in the log, if the log is wanted.
module _ (c : CJson) where
  open c use {Double}

  abbrev pub log_of : Client → Json Double → List (Effect Double)
  log_of s j = if s.wants_log_events then log_received j ∷ [] else []

  enable_features_lem :
      (name : Bytes) (names : List Bytes) (body : Json Double) (features : List Bytes)
      → is_in name (enable_features c names body features)
        ≡ is_in name features || (is_in name names && get_bool (at_name body name) false)
  unfolding enable_features is_in
  enable_features_lem name [] body features = ground arith
  enable_features_lem name (n ∷ names) body features =
      let more = enable_features_lem name names body (n ∷ features) in
      let same = enable_features_lem name names body features in
      elim (Bool-cases (bytes_eq n name)) [
        | inl e ↦
            let q : get_bool (at_name body n) false ≡ get_bool (at_name body name) false =
              ap (λ k. get_bool (at_name body k) false) (eq_of_bytes_eq n name e) in
            ground (arith, q, more, same)
        | inr e ↦ ground (arith, more, same)
      ]

  dispatch_before :
      (h : HandshakeState) (s : Client) (j : Json Double)
      → IsBefore h
      → dispatch c h s j ≡ on_handshake c s (from_json c j) j
  unfolding dispatch
  dispatch_before completed s j h = absurd h
  dispatch_before not_performed s j h = refl
  dispatch_before in_progress s j h = refl

  accepted :
      (s : Client) (m : Option Received) (j : Json Double)
      → is_initialize m ≡ true
      → on_handshake c s m j ≡ (
        record s {
          handshake_state = completed;
          features = enable_features c feature_names (at_name j (codes "body")) s.features;
        },
        dap_event initialize_response no_attachment j none ∷ [],
      )
  unfolding on_handshake send_dap_event
  accepted s m j h = ground arith

  -- The response to initialize completes the handshake and raises one event; afterwards a feature is
  -- supported if it was before, or if it is one of the client's names and its entry in the body is the
  -- value true. Nothing else of the client changes.
  pub on_message_initialize :
      (s : Client) (j : Json Double) (name : Bytes)
      → IsBefore s.handshake_state
      → is_initialize (from_json c j) ≡ true
      → let out = on_message c s j in
        (out.1 ≡ log_of s j ++ dap_event initialize_response no_attachment j none ∷ [])
        × (out.0 ≡ record s { handshake_state = completed; features = out.0.features })
        × (is_supported out.0 name
            ≡ is_supported s name
              || (is_in name feature_names
                  && get_bool (at_name (at_name j (codes "body")) name) false))
  unfolding on_message is_supported
  on_message_initialize s j name h e =
      rw (dispatch_before s.handshake_state s j h, accepted s (from_json c j) j e)
        (refl, refl, enable_features_lem name feature_names (at_name j (codes "body")) s.features)
