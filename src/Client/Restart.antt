-- ===== src/Client/Restart.antt =====
-- `Reset`: what a lost connection or a new transport leaves of a session.
use wxdap.Base.{◌≡◌, refl, ap, true, List, ◌∷◌, Bytes, Bool-cases, inl, inr, ◌∙◌}
use wxdap.Client.{
  Client, reset, set_transport, stop_reader_thread, start_reader_thread, on_connection_error,
}
use wxdap.Client.Session.{Input, connection_error, new_transport, run, step, new_client}
use wxdap.Json.{CJson, Json}

pub reset_lem : (s : Client) → reset s ≡ record new_client { wants_log_events = s.wants_log_events }
unfolding reset stop_reader_thread
reset_lem s = elim (Bool-cases s.reader_thread) [
  | inl t ↦ rw (t, reset, stop_reader_thread) refl
  | inr t ↦ rw (t, reset, stop_reader_thread) refl
]

pub set_transport_lem :
    (s : Client)
    → set_transport s ≡ record new_client {
      transport = true;
      reader_thread = true;
      wants_log_events = s.wants_log_events;
    }
unfolding set_transport start_reader_thread
set_transport_lem s =
    ap (λ t. start_reader_thread (record t { transport = true })) (reset_lem s) ∙ refl

module _ (c : CJson) (parse : Bytes → Json (c.Double)) (full_name : Bytes → Bytes) where
  -- After a lost connection, and after a new transport, a session goes on as if nothing had been
  -- before: two clients that agree on whether they want log events have the same effects and reach the
  -- same states from there on, whatever happened to them before.
  pub run_restart :
      (s s' : Client) (inputs : List Input)
      → s.wants_log_events ≡ s'.wants_log_events
      → (run c parse full_name s (connection_error ∷ inputs)
          ≡ run c parse full_name s' (connection_error ∷ inputs))
        × (run c parse full_name s (new_transport ∷ inputs)
            ≡ run c parse full_name s' (new_transport ∷ inputs))
  unfolding run step on_connection_error
  run_restart s s' inputs w =
      rw (reset_lem s, reset_lem s', set_transport_lem s, set_transport_lem s', w) (refl, refl)
