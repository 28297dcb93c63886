-- ===== src/Client/Threads/Stale.antt =====
-- dap/Client.cpp: a failure that is posted before `SetTransport` and run after it.
use wxdap.Base.{Bool, ◌&&◌, ◌≡◌, refl, ap, ◌∙◌, true, false, List, [], ◌∷◌, ◌++◌, Bytes}
use wxdap.Client.{Client, Effect, on_connection_error as lose_connection}
use wxdap.Client.Restart.{reset_lem}
use wxdap.Client.Session.{step, thread_failed, new_transport, connection_error}
use wxdap.Client.Threads.{
  System, on_connection_error, thread_fails, main_sets_transport, main_dispatches, fails,
  sets_transport, dispatches, after_main, after_transport, Reach, here, next,
}
use wxdap.Json.{CJson, Json}

and_false : (b : Bool) → (b && false) ≡ false
and_false true = refl
and_false false = refl

module _ (c : CJson) (parse : Bytes → Json (c.Double)) (full_name : Bytes → Bytes) where
  open c use {Double}

  abbrev failed : System → System
  failed s = record {
    client = (step c parse full_name s.client thread_failed).0;
    running = false;
    pending = s.pending ++ on_connection_error ∷ [];
  }

  abbrev renewed : System → System
  renewed s =
      after_transport c parse full_name (failed s)
        (step c parse full_name (failed s).client new_transport)

  abbrev lost : System → System
  lost s =
      after_main c parse full_name (renewed s) []
        (step c parse full_name (renewed s).client connection_error)

  lost_lem : (s : System) → ((lost s).client.transport ≡ false) × ((lost s).running ≡ false)
  unfolding step after_main after_transport lose_connection
  lost_lem s =
      let client = (renewed s).client in
      (
        ap (λ u. u.transport) (reset_lem client),
        ap (λ (u : Client). (renewed s).running && u.reader_thread) (reset_lem client)
            ∙ and_false (renewed s).running,
      )

  -- A connection that fails just before its owner sets a new transport takes the new one with it: where
  -- the reader thread has posted the failure, and nothing else waits, the main thread can set the
  -- transport and then run what was posted, and the client is left without a transport and without a
  -- reader thread, although no read of the new transport has failed.
  pub stale_failure :
      (s : System)
      → s.running ≡ true
      → s.pending ≡ []
      → (t : System) × (es : List (Effect Double)) × Reach c parse full_name s
          (thread_fails ∷ main_sets_transport ∷ main_dispatches on_connection_error ∷ [])
          es
          t
        × (t.client.transport ≡ false)
        × (t.running ≡ false)
  stale_failure s running empty =
      let one = next here (fails s running) in
      let two = next one (sets_transport (failed s)) in
      let waits : (renewed s).pending ≡ on_connection_error ∷ [] =
        unfold after_transport in ap (λ ps. ps ++ on_connection_error ∷ []) empty in
      let (gone, ended) = lost_lem s in
      (lost s, _, next two (dispatches (renewed s) on_connection_error [] waits), gone, ended)
