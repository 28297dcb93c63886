-- ===== src/Client/Order.antt =====
-- The order of callbacks over a connected session: those asked for are those called and, behind them, those
-- that wait.
use wxdap.Base.{ℕ, ◌≡◌, refl, true, List, [], ◌∷◌, Bool-cases, inl, inr, Bytes, sym, ◌∙◌}
use wxdap.Client.{Client, make_request, get_next_sequence, send_request}
use wxdap.Base.{codes}
use wxdap.Protocol.{Source}
use wxdap.Protocol.Structs.{is_positive}
use wxdap.Protocol.Requests.{breakpoint_locations}
use wxdap.Client.Requests.{
  attach_call, breakpoint_locations_call, configuration_done_call, continue_call, evaluate_call,
  get_children_variables_call, get_frames_call, get_scopes_call, get_threads_call, initialize_call,
  is_supported, launch_call, load_source, load_source_call, next_call, pause_call,
  request_breakpoint_locations, request_of, set_breakpoints_file_call,
  set_function_breakpoints_call, step_in_call, step_out_call,
}
use wxdap.Client.Requests.{
  Call, run_call, request_of, initialize_session, set_breakpoints_file, launch_program, get_scopes,
  get_frames, step_over, continue_run, get_children_variables, request_breakpoint_locations,
  load_source, evaluate_expression, attach_to, initialize_call, set_breakpoints_file_call,
  breakpoint_locations_call, load_source_call,
}
use wxdap.Decimal.{ℤ}
use wxdap.Protocol.Requests.{ClientRequest, Arguments}
use wxdap.Client.Callbacks.{evaluated_in, loaded_in}
use wxdap.Client.Session.{Input, call, connection_error, new_transport}
use wxdap.Client.{Outcome}
use wxdap.Base.{◌++◌, append-nil, if◌then◌else◌}

-- The callbacks that a call hands over.
abbrev pub evaluate_asked : Input → List ℕ
evaluate_asked (call (evaluate_call expression frame context callback format)) = callback ∷ []
evaluate_asked _ = []

abbrev pub source_asked : Input → List ℕ
source_asked (call (load_source_call source callback)) =
    if is_positive source.source_reference then callback ∷ [] else []
source_asked _ = []

-- No input that ends the connection.
abbrev pub IsQuiet : Input → Type 0
IsQuiet connection_error = ⊥
IsQuiet new_transport = ⊥
IsQuiet _ = Unit {0}

module _ {D : Type 0} where
  -- What was waiting and what is asked, are what was called and what waits then.
  abbrev pub Moves : Client → List ℕ → List ℕ → Outcome D → Type 0
  Moves s asked sources out =
      (out.0.transport ≡ true)
      × (s.evaluate_queue ++ asked ≡ evaluated_in out.1 ++ out.0.evaluate_queue)
      × (s.load_sources_queue ++ sources ≡ loaded_in out.1 ++ out.0.load_sources_queue)

module _ (D : Type 0) where
  send_request-Moves :
      (s t : Client) (r : ClientRequest) (asked sources : List ℕ)
      → t.transport ≡ true
      → t.evaluate_queue ≡ s.evaluate_queue ++ asked
      → t.load_sources_queue ≡ s.load_sources_queue ++ sources
      → Moves s asked sources (send_request {D = D} t r)
  unfolding send_request
  send_request-Moves s t r asked sources h e l = elim (Bool-cases t.wants_log_events) [
    | inl w ↦ rw (h, send_request, w) (refl, sym e, sym l)
    | inr w ↦ rw (h, send_request, w) (refl, sym e, sym l)
  ]

  request_of-Moves :
      (s t : Client) (a : Arguments) (asked sources : List ℕ)
      → t.transport ≡ true
      → t.evaluate_queue ≡ s.evaluate_queue ++ asked
      → t.load_sources_queue ≡ s.load_sources_queue ++ sources
      → Moves s asked sources (request_of {D = D} t a)
  unfolding request_of make_request get_next_sequence
  request_of-Moves s t a asked sources h e l =
      let (request, t') = make_request t a in send_request-Moves s t' request asked sources h e l

  plain :
      (s t : Client) (a : Arguments)
      → t.transport ≡ true
      → t.evaluate_queue ≡ s.evaluate_queue
      → t.load_sources_queue ≡ s.load_sources_queue
      → Moves s [] [] (request_of {D = D} t a)
  plain s t a h e l =
      request_of-Moves s t a [] [] h (e ∙ sym (append-nil _)) (l ∙ sym (append-nil _))

  breakpoint_locations-Moves :
      (s : Client) (path : Bytes) (start end : ℤ)
      → s.transport ≡ true
      → Moves s [] [] (request_breakpoint_locations {D = D} s path start end)
  unfolding request_breakpoint_locations request_of
  breakpoint_locations-Moves s path start end h =
      elim (Bool-cases (is_supported s (codes "supportsBreakpointLocationsRequest"))) [
        | inl t ↦
            rw (t, request_breakpoint_locations)
              (plain s s (breakpoint_locations path start end) h refl refl)
        | inr t ↦ rw (t, request_breakpoint_locations) (h, append-nil _, append-nil _)
      ]

  load_source-Moves :
      (s : Client) (source : Source) (callback : ℕ)
      → s.transport ≡ true
      → Moves s []
          (source_asked (call (load_source_call source callback)))
          (load_source {D = D} s source callback).1
  unfolding load_source
  load_source-Moves s source callback h = elim (Bool-cases (is_positive source.source_reference)) [
    | inl t ↦
        rw (t, load_source) (request_of-Moves s _ _ [] (callback ∷ []) h (sym (append-nil _)) refl)
    | inr t ↦ rw (t, load_source) (h, append-nil _, append-nil _)
  ]

  pub run_call-Moves :
      (full_name : Bytes → Bytes) (s : Client) (k : Call)
      → s.transport ≡ true
      → Moves s (evaluate_asked (call k)) (source_asked (call k)) (run_call {D = D} full_name s k)
  unfolding run_call initialize_session set_breakpoints_file launch_program get_scopes get_frames
      step_over continue_run get_children_variables evaluate_expression attach_to
  run_call-Moves f s (initialize_call a) h = plain s s _ h refl refl
  run_call-Moves f s (breakpoint_locations_call path start end) h =
      breakpoint_locations-Moves s path start end h
  run_call-Moves f s (load_source_call source callback) h = load_source-Moves s source callback h
  run_call-Moves f s (evaluate_call expression frame context callback format) h =
      request_of-Moves s _ _ (callback ∷ []) [] h refl (sym (append-nil _))
  run_call-Moves f s (set_breakpoints_file_call path lines) h = plain s _ _ h refl refl
  run_call-Moves f s configuration_done_call h = plain s _ _ h refl refl
  run_call-Moves f s get_threads_call h = plain s _ _ h refl refl
  run_call-Moves f s (launch_call program args cwd env) h = plain s _ _ h refl refl
  run_call-Moves f s (get_scopes_call frame) h = plain s _ _ h refl refl
  run_call-Moves f s (get_frames_call thread start count) h = plain s _ _ h refl refl
  run_call-Moves f s (next_call thread single granularity) h = plain s _ _ h refl refl
  run_call-Moves f s (continue_call thread all) h = plain s _ _ h refl refl
  run_call-Moves f s (step_in_call thread single) h = plain s _ _ h refl refl
  run_call-Moves f s (step_out_call thread single) h = plain s _ _ h refl refl
  run_call-Moves f s (set_function_breakpoints_call breakpoints) h = plain s _ _ h refl refl
  run_call-Moves f s (get_children_variables_call reference context count format) h =
      plain s _ _ h refl refl
  run_call-Moves f s (pause_call thread) h = plain s _ _ h refl refl
  run_call-Moves f s (attach_call pid arguments) h = plain s _ _ h refl refl
