-- ===== src/Client/Threads.antt =====
-- dap/Client.cpp: the two threads of a client. The reader thread reads the transport and posts what it
-- read with `CallAfter`; the main thread runs what was posted, one after the other, and the calls of
-- the owner. Where `Reset` joins the thread, the round that the thread ends meanwhile touches only
-- what `Reset` leaves alone or sets, so that it counts as a step before.
pub mod Stale
use wxdap.Base.{Bool, true, false, ◌&&◌, Option, none, some, List, [], ◌∷◌, ◌++◌, ◌≡◌, ◌≢◌, Bytes}
use wxdap.Client.{Client, Outcome, Effect}
use wxdap.Client.Requests.{Call}
use wxdap.Client.Session.{
  Input, call, data_read, connection_error, new_transport, thread_failed, reply, step,
}
use wxdap.Json.{CJson, Json}
use wxdap.Protocol.{Response}

-- What `CallAfter` posts: `OnDataRead` with its text, or `OnConnectionError`.
pub data Posted : Type 0 where
  on_data_read : Bytes → Posted
  on_connection_error : Posted

pub record System : Type 0 where
  pub client : Client
  -- The loop of the reader thread has not ended.
  pub running : Bool
  pub pending : List Posted

pub data Happening : Type 0 where
  thread_reads : Bytes → Happening
  thread_fails : Happening
  main_dispatches : Posted → Happening
  main_calls : Call → Happening
  main_replies : Response → Happening
  main_sets_transport : Happening

abbrev pub dispatched_input : Posted → Input
dispatched_input (on_data_read content) = data_read content
dispatched_input on_connection_error = connection_error

module _ (c : CJson) (parse : Bytes → Json (c.Double)) (full_name : Bytes → Bytes) where
  open c use {Double}

  -- The system behind a step of the main thread: where the client has lost its thread, it has ended.
  unfoldable pub after_main : System → List Posted → Outcome Double → System
  after_main s pending out = record {
    client = out.0;
    running = s.running && out.0.reader_thread;
    pending = pending;
  }

  -- `SetTransport` ends the thread and starts another one.
  unfoldable pub after_transport : System → Outcome Double → System
  after_transport s out = record {
    client = out.0;
    running = out.0.reader_thread;
    pending = s.pending;
  }

  pub data Step : System → Happening → List (Effect Double) → System → Type 0 where
    -- A round of the thread that read something.
    reads :
        (s : System) (content : Bytes)
        → s.running ≡ true
        → content ≢ []
        → Step s
            (thread_reads content)
            []
            (record s { pending = s.pending ++ on_data_read content ∷ [] })
    -- A round in which `Read` failed; it is the last one.
    fails :
        (s : System)
        → s.running ≡ true
        → Step s thread_fails (step c parse full_name s.client thread_failed).1 (record {
          client = (step c parse full_name s.client thread_failed).0;
          running = false;
          pending = s.pending ++ on_connection_error ∷ [];
        })
    dispatches :
        (s : System) (p : Posted) (rest : List Posted)
        → s.pending ≡ p ∷ rest
        → Step s
            (main_dispatches p)
            (step c parse full_name s.client (dispatched_input p)).1
            (after_main s rest (step c parse full_name s.client (dispatched_input p)))
    calls :
        (s : System) (k : Call)
        → Step s
            (main_calls k)
            (step c parse full_name s.client (call k)).1
            (after_main s s.pending (step c parse full_name s.client (call k)))
    replies :
        (s : System) (r : Response)
        → Step s
            (main_replies r)
            (step c parse full_name s.client (reply r)).1
            (after_main s s.pending (step c parse full_name s.client (reply r)))
    sets_transport :
        (s : System)
        → Step s main_sets_transport
            (step c parse full_name s.client new_transport).1
            (after_transport s (step c parse full_name s.client new_transport))

  -- What happened, the first first, and the effects.
  pub data Reach (s : System) : List Happening → List (Effect Double) → System → Type 0 where
    here : Reach s [] [] s
    next :
        {hs : List Happening} {h : Happening} {es es' : List (Effect Double)} {t u : System}
        → Reach s hs es t
        → Step t h es' u
        → Reach s (hs ++ h ∷ []) (es ++ es') u
