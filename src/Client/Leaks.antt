-- ===== src/Client/Leaks.antt =====
-- Responses whose request stays in flight: `GetOriginatingRequest` is called for some commands only.
use wxdap.Base.{
  ◌≡◌, refl, Bool, true, inl, inr, Bytes, codes, bytes_eq, ◌||◌, arith, eq_of_bytes_eq, Bool-cases,
}
use wxdap.Client.{Client}
use wxdap.Client.Receive.{on_response, handle_evaluate_response, handle_source_response, is_step}
use wxdap.Json.{CJson, Json}
use wxdap.Protocol.{Response}

-- The commands that are answered without a look at the requests in flight.
abbrev pub is_forgotten : Bytes → Bool
is_forgotten command =
    is_step command || (bytes_eq command (codes "source") || bytes_eq command (codes "evaluate"))

module _ (c : CJson) where
  open c use {Double}

  handle_evaluate_response_same :
      (s : Client) (j : Json Double)
      → (handle_evaluate_response c s j).0.in_flight_requests ≡ s.in_flight_requests
  unfolding handle_evaluate_response
  handle_evaluate_response_same s j = ground arith

  handle_source_response_same :
      (s : Client) (j : Json Double)
      → (handle_source_response c s j).0.in_flight_requests ≡ s.in_flight_requests
  unfolding handle_source_response
  handle_source_response_same s j = ground arith

  -- The response to a step or continue request, to source and to evaluate leaves its request in
  -- flight.
  pub on_response_forgets :
      (s : Client) (r : Response) (j : Json Double)
      → is_forgotten r.command ≡ true
      → (on_response c s r j).0.in_flight_requests ≡ s.in_flight_requests
  unfolding on_response
  on_response_forgets s r j h = elim (Bool-cases (bytes_eq r.command (codes "stepIn"))) [
    | inl e ↦ rw (eq_of_bytes_eq r.command (codes "stepIn") e) refl
    | inr e1 ↦ elim (Bool-cases (bytes_eq r.command (codes "stepOut"))) [
      | inl e ↦ rw (eq_of_bytes_eq r.command (codes "stepOut") e) refl
      | inr e2 ↦ elim (Bool-cases (bytes_eq r.command (codes "next"))) [
        | inl e ↦ rw (eq_of_bytes_eq r.command (codes "next") e) refl
        | inr e3 ↦ elim (Bool-cases (bytes_eq r.command (codes "continue"))) [
          | inl e ↦ rw (eq_of_bytes_eq r.command (codes "continue") e) refl
          | inr e4 ↦ elim (Bool-cases (bytes_eq r.command (codes "source"))) [
            | inl e ↦
                rw (eq_of_bytes_eq r.command (codes "source") e) (handle_source_response_same s j)
            | inr e5 ↦ elim (Bool-cases (bytes_eq r.command (codes "evaluate"))) [
              | inl e ↦
                  rw (eq_of_bytes_eq r.command (codes "evaluate") e)
                    (handle_evaluate_response_same s j)
              | inr e6 ↦ ground arith
            ]
          ]
        ]
      ]
    ]
  ]
