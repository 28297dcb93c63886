-- ===== src/Client/Window.antt =====
-- What of a `GetFrames` call reaches the server.
use wxdap.Base.{◌≡◌, refl, List, [], ◌∷◌, ◌++◌, Bool-cases, inl, inr}
use wxdap.Client.{Client, Effect, sent, send_request, make_request}
use wxdap.Client.Requests.{get_frames, request_of}
use wxdap.Decimal.{ℤ}
use wxdap.Json.{CJson, Json}
use wxdap.Protocol.Sent.{client_request_to}

module _ (c : CJson) where
  open c use {Double}

  abbrev written_by : Effect Double → List (Json Double)
  written_by (sent request) = client_request_to c request ∷ []
  written_by _ = []

  -- The Json of the requests that are sent, in order.
  abbrev written_in : List (Effect Double) → List (Json Double)
  written_in [] = []
  written_in (e ∷ es) = written_by e ++ written_in es

  -- The server cannot tell two calls of `GetFrames` for a thread apart: the first frame and the number
  -- of frames are not in what is sent.
  get_frames_window :
      (s : Client) (thread_id start count start' count' : ℤ)
      → written_in (get_frames {D = Double} s thread_id start count).1
        ≡ written_in (get_frames {D = Double} s thread_id start' count').1
  unfolding get_frames request_of make_request send_request client_request_to
  get_frames_window s thread_id start count start' count' = elim (Bool-cases s.transport) [
    | inl t ↦ elim (Bool-cases s.wants_log_events) [
      | inl w ↦ rw (t, w, get_frames, send_request) refl
      | inr w ↦ rw (t, w, get_frames, send_request) refl
    ]
    | inr t ↦ rw (t, get_frames, send_request) refl
  ]
