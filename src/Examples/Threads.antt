-- ===== src/Examples/Threads.antt =====
-- Runs of the two threads of a client.
use wxdap.Base.{◌≡◌, refl, true, false, none, List, [], ◌∷◌, Bytes}
use wxdap.Client.{Effect}
use wxdap.Client.Session.{new_client}
use wxdap.Client.Threads.{
  System, on_connection_error, thread_fails, main_sets_transport, main_dispatches, Reach,
}
use wxdap.Client.Threads.Stale.{stale_failure}
use wxdap.Decimal.{ℤ}
use wxdap.Examples.Values.{integer_json}
use wxdap.Json.{Json}

abbrev parse_none : Bytes → Json ℤ
parse_none s = none

abbrev as_it_is : Bytes → Bytes
as_it_is s = s

abbrev connected_system : System
connected_system = record {
  client = record new_client { transport = true; reader_thread = true };
  running = true;
  pending = [];
}

stale_failure_example :
    (t : System) × (es : List (Effect ℤ)) × Reach integer_json parse_none as_it_is connected_system
      (thread_fails ∷ main_sets_transport ∷ main_dispatches on_connection_error ∷ [])
      es
      t
    × (t.client.transport ≡ false)
    × (t.running ≡ false)
stale_failure_example = stale_failure integer_json parse_none as_it_is connected_system refl refl
