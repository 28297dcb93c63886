-- ===== src/Client/Numbers.antt =====
-- The numbers of requests: each request in flight is under its own number, and a new number is fresh.
use wxdap.Base.{
  ◌%◌, ℕ, ◌+◌, ◌≤◌, ◌<◌, ◌≡◌, refl, ap, true, false, none, some, List, [], ◌∷◌, All, Bool-cases,
  inl, inr, Bytes, arith,
}
use wxdap.Client.{
  Client, find_key, make_request, get_next_sequence, send_request, reset, on_connection_error,
  set_transport, send_response,
}
use wxdap.Client.Keys.{All-insert_key, find_key-insert_key}
use wxdap.Base.{codes}
use wxdap.Protocol.{Source}
use wxdap.Protocol.Structs.{is_positive}
use wxdap.Protocol.Requests.{breakpoint_locations}
use wxdap.Client.{start_reader_thread}
use wxdap.Client.Requests.{
  attach_call, breakpoint_locations_call, configuration_done_call, continue_call, evaluate_call,
  get_children_variables_call, get_frames_call, get_scopes_call, get_threads_call, initialize_call,
  is_supported, launch_call, load_source, load_source_call, next_call, pause_call,
  request_breakpoint_locations, request_of, set_breakpoints_file_call,
  set_function_breakpoints_call, step_in_call, step_out_call,
}
use wxdap.Client.Requests.{
  Call, run_call, request_of, initialize_session, set_breakpoints_file, launch_program, get_scopes,
  get_frames, step_over, continue_run, get_children_variables, request_breakpoint_locations,
  load_source, evaluate_expression, attach_to, initialize_call, set_breakpoints_file_call,
  breakpoint_locations_call, load_source_call,
}
use wxdap.Decimal.{ℤ, pos, negsuc, int_of_size_small}
use wxdap.Protocol.{Response}
use wxdap.Protocol.Structs.{int_eq}
use wxdap.Protocol.Requests.{ClientRequest, Arguments}

-- One of the numbers 1, ..., n.
abbrev pub IsIssued : ℕ → ℤ → Type 0
IsIssued n (pos k) = (1 ≤ k) × (k ≤ n)
IsIssued n (negsuc k) = ⊥

abbrev pub IsEntry : ℕ → ℤ × ClientRequest → Type 0
IsEntry n (k, request) = IsIssued n k × (k ≡ request.seq)

-- At most n requests were made, and each of those in flight is under its own number.
abbrev pub IsNumbered : ℕ → Client → Type 0
IsNumbered n s = (s.request_sequence ≤ n) × All (IsEntry s.request_sequence) s.in_flight_requests

pub make_request_lem :
    (s : Client) (a : Arguments)
    → s.request_sequence + 1 < 2147483648
    → make_request s a ≡ (
      record { seq = pos (s.request_sequence + 1); arguments = a },
      record s { request_sequence = s.request_sequence + 1 },
    )
unfolding make_request get_next_sequence
make_request_lem s a h =
    let e : (s.request_sequence + 1) % 18446744073709551616 ≡ s.request_sequence + 1 =
      omega arith in
    rw (e, int_of_size_small (s.request_sequence + 1) h) refl

IsIssued-suc : (n : ℕ) (z : ℤ) → IsIssued n z → IsIssued (n + 1) z
IsIssued-suc n (pos k) (h, h') = (h, omega arith)
IsIssued-suc n (negsuc k) h = h

entries_suc : (n : ℕ) (m : List (ℤ × ClientRequest)) → All (IsEntry n) m → All (IsEntry (n + 1)) m
entries_suc n [] h = h
entries_suc n ((k, r) ∷ m) ((i, e), h) = ((IsIssued-suc n k i, e), entries_suc n m h)

new_key : (n : ℕ) (z : ℤ) → IsIssued n z → int_eq z (pos (n + 1)) ≡ false
new_key n (pos k) (h, h') = ground arith
new_key n (negsuc k) h = refl

pub find_key-new :
    (n : ℕ) (m : List (ℤ × ClientRequest)) → All (IsEntry n) m → find_key (pos (n + 1)) m ≡ none
unfolding find_key
find_key-new n [] h = refl
find_key-new n ((k, r) ∷ m) ((i, e), h) = rw (new_key n k i) (find_key-new n m h)

pub reset-IsNumbered : (n : ℕ) (s : Client) → IsNumbered n (reset s)
unfolding reset
reset-IsNumbered n s = (omega arith, tt)

pub set_transport-IsNumbered : (n : ℕ) (s : Client) → IsNumbered n (set_transport s)
unfolding set_transport start_reader_thread reset
set_transport-IsNumbered n s = ground arith

pub later : (n : ℕ) (s : Client) → IsNumbered n s → IsNumbered (n + 1) s
later n s (h, entries) = (omega arith, entries)

module _ (D : Type 0) where
  pub request_of_lem :
      (s : Client) (a : Arguments)
      → s.request_sequence + 1 < 2147483648
      → request_of {D = D} s a
        ≡ send_request
            (record s { request_sequence = s.request_sequence + 1 })
            (record { seq = pos (s.request_sequence + 1); arguments = a })
  unfolding request_of
  request_of_lem s a h = ap (λ p. send_request {D = D} p.1 p.0) (make_request_lem s a h)

  send_request-IsNumbered :
      (n : ℕ) (s : Client) (r : ClientRequest)
      → IsNumbered n s
      → IsEntry s.request_sequence (r.seq, r)
      → IsNumbered n (send_request {D = D} s r).0
  unfolding send_request on_connection_error
  send_request-IsNumbered n s r (h, entries) e = elim (Bool-cases s.transport) [
    | inl t ↦
        rw (t, send_request)
          (h, All-insert_key (IsEntry s.request_sequence) r.seq r s.in_flight_requests e entries)
    | inr t ↦ rw (t, send_request) (reset-IsNumbered n s)
  ]

  request_of-IsNumbered :
      (n : ℕ) (s : Client) (a : Arguments)
      → IsNumbered n s
      → n + 1 < 2147483648
      → IsNumbered (n + 1) (request_of {D = D} s a).0
  request_of-IsNumbered n s a (h, entries) small = rw (request_of_lem s a (omega arith)) (
      send_request-IsNumbered (n + 1) _ _ (omega arith, entries_suc s.request_sequence _ entries)
        ((omega arith, omega arith), refl))

  pub send_response-IsNumbered :
      (n : ℕ) (s : Client) (r : Response)
      → IsNumbered n s
      → IsNumbered n (send_response {D = D} s r).0
  unfolding send_response on_connection_error reset
  send_response-IsNumbered n s r h = ground arith

  pub find_key-request_of :
      (s : Client) (a : Arguments)
      → s.transport ≡ true
      → s.request_sequence + 1 < 2147483648
      → find_key (pos (s.request_sequence + 1)) s.in_flight_requests ≡ none
      → find_key (pos (s.request_sequence + 1)) (request_of {D = D} s a).0.in_flight_requests
        ≡ some (record { seq = pos (s.request_sequence + 1); arguments = a })
  unfolding send_request
  find_key-request_of s a t small new =
      rw (request_of_lem s a small, t, send_request)
        (find_key-insert_key (pos (s.request_sequence + 1)) _ s.in_flight_requests new)

  breakpoint_locations-IsNumbered :
      (n : ℕ) (s : Client) (path : Bytes) (start end : ℤ)
      → IsNumbered n s
      → n + 1 < 2147483648
      → IsNumbered (n + 1) (request_breakpoint_locations {D = D} s path start end).0
  unfolding request_breakpoint_locations request_of
  breakpoint_locations-IsNumbered n s path start end h small =
      elim (Bool-cases (is_supported s (codes "supportsBreakpointLocationsRequest"))) [
        | inl t ↦
            rw (t, request_breakpoint_locations)
              (request_of-IsNumbered n s (breakpoint_locations path start end) h small)
        | inr t ↦ rw (t, request_breakpoint_locations) (later n s h)
      ]

  load_source-IsNumbered :
      (n : ℕ) (s : Client) (source : Source) (callback : ℕ)
      → IsNumbered n s
      → n + 1 < 2147483648
      → IsNumbered (n + 1) (load_source {D = D} s source callback).1.0
  unfolding load_source
  load_source-IsNumbered n s source callback h small =
      elim (Bool-cases (is_positive source.source_reference)) [
        | inl t ↦ rw (t, load_source) (request_of-IsNumbered n _ _ h small)
        | inr t ↦ rw (t, load_source) (later n s h)
      ]

  pub run_call-IsNumbered :
      (full_name : Bytes → Bytes) (n : ℕ) (s : Client) (k : Call)
      → IsNumbered n s
      → n + 1 < 2147483648
      → IsNumbered (n + 1) (run_call {D = D} full_name s k).0
  unfolding run_call initialize_session set_breakpoints_file launch_program get_scopes get_frames
      step_over continue_run get_children_variables evaluate_expression attach_to
  run_call-IsNumbered f n s (initialize_call a) h small = request_of-IsNumbered n s _ h small
  run_call-IsNumbered f n s (breakpoint_locations_call path start end) h small =
      breakpoint_locations-IsNumbered n s path start end h small
  run_call-IsNumbered f n s (load_source_call source callback) h small =
      load_source-IsNumbered n s source callback h small
  run_call-IsNumbered f n s (set_breakpoints_file_call path lines) h small =
      request_of-IsNumbered n _ _ h small
  run_call-IsNumbered f n s configuration_done_call h small = request_of-IsNumbered n _ _ h small
  run_call-IsNumbered f n s get_threads_call h small = request_of-IsNumbered n _ _ h small
  run_call-IsNumbered f n s (launch_call program args cwd env) h small =
      request_of-IsNumbered n _ _ h small
  run_call-IsNumbered f n s (get_scopes_call frame) h small = request_of-IsNumbered n _ _ h small
  run_call-IsNumbered f n s (get_frames_call thread start count) h small =
      request_of-IsNumbered n _ _ h small
  run_call-IsNumbered f n s (next_call thread single granularity) h small =
      request_of-IsNumbered n _ _ h small
  run_call-IsNumbered f n s (continue_call thread all) h small = request_of-IsNumbered n _ _ h small
  run_call-IsNumbered f n s (step_in_call thread single) h small =
      request_of-IsNumbered n _ _ h small
  run_call-IsNumbered f n s (step_out_call thread single) h small =
      request_of-IsNumbered n _ _ h small
  run_call-IsNumbered f n s (set_function_breakpoints_call breakpoints) h small =
      request_of-IsNumbered n _ _ h small
  run_call-IsNumbered f n s (get_children_variables_call reference context count format) h small =
      request_of-IsNumbered n _ _ h small
  run_call-IsNumbered f n s (pause_call thread) h small = request_of-IsNumbered n _ _ h small
  run_call-IsNumbered f n s (evaluate_call expression frame context callback format) h small =
      request_of-IsNumbered n _ _ h small
  run_call-IsNumbered f n s (attach_call pid arguments) h small =
      request_of-IsNumbered n _ _ h small
