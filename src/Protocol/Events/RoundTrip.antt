-- ===== src/Protocol/Events/RoundTrip.antt =====
-- An event that is written by `To` is read back by `From`.
use wxdap.Base.{◌≡◌, ap, ap₂, refl, true, some, Bytes, codes, Option, none}
use wxdap.Json.{
  CJson, Nodes, cons, nil, IsInt, get_string, get_integer, get_bool, at_name, get_number, Json,
}
use wxdap.Json.Reading.{get_bool_default}
use wxdap.Json.Building.{
  object, object_node, string_node, int_node, bool_node, building, add_item-object, IsKept,
}
use wxdap.Protocol.{Event, event_from, event_to}
use wxdap.Protocol.Structs.RoundTrip.{
  IsBreakpoint, read_bool-bool_node, breakpoint_nodes, breakpoint_to-object, breakpoint_from-object,
}
use wxdap.Protocol.Events.{
  EventBody, initialized, terminated, stopped, continued, exited, thread, output, breakpoint,
  process, debugpy_waiting, StoppedBody, ProcessBody, stopped_to, stopped_from, process_to,
  process_from, body_to, body_from, class_of, event_message_to, with_body, event_message_from,
  EventMessage,
}

-- The body that the reader has: every process is a local one.
abbrev pub event_body_read : EventBody → EventBody
event_body_read (process b) = process (record b { is_local_process = true })
event_body_read b = b

module _ (c : CJson) where
  open c use {to_int-of_int}

  abbrev stopped_nodes : StoppedBody → Nodes c.Double
  stopped_nodes b = cons (string_node c (codes "reason") b.reason) (
      cons (string_node c (codes "text") b.text) (
        cons (string_node c (codes "description") b.description) (
          cons (bool_node c (codes "allThreadsStopped") b.all_threads_stopped)
            (cons (int_node c (codes "threadId") b.thread_id) nil))))

  stopped_to-object : (b : StoppedBody) → stopped_to c b ≡ object c (stopped_nodes b)
  unfolding stopped_to
  stopped_to-object b = simp building

  abbrev IsStopped : StoppedBody → Type 0
  IsStopped b = IsInt b.thread_id × IsKept c b.reason × IsKept c b.text × IsKept c b.description

  stopped_from-object :
      (b : StoppedBody) (name : Bytes)
      → IsStopped b
      → stopped_from c (some (object_node c name (stopped_nodes b))) ≡ b
  unfolding stopped_from at_name get_string get_integer get_bool
  stopped_from-object b name (h, reason, text, description) = λ i. record {
    reason = reason i;
    text = text i;
    description = description i;
    all_threads_stopped = read_bool-bool_node c (codes "allThreadsStopped") b.all_threads_stopped i;
    thread_id = to_int-of_int b.thread_id h i;
  }

  abbrev process_nodes : ProcessBody → Nodes c.Double
  process_nodes b = cons (string_node c (codes "name") b.name) (
      cons (int_node c (codes "systemProcessId") b.system_process_id) (
        cons (bool_node c (codes "isLocalProcess") b.is_local_process) (
          cons (string_node c (codes "startMethod") b.start_method)
            (cons (int_node c (codes "pointerSize") b.pointer_size) nil))))

  process_to-object : (b : ProcessBody) → process_to c b ≡ object c (process_nodes b)
  unfolding process_to
  process_to-object b = simp building

  abbrev IsProcess : ProcessBody → Type 0
  IsProcess b =
      IsInt b.system_process_id × IsInt b.pointer_size × IsKept c b.name × IsKept c b.start_method

  process_from-object :
      (b : ProcessBody) (name : Bytes)
      → IsProcess b
      → process_from c (some (object_node c name (process_nodes b)))
        ≡ record b { is_local_process = true }
  unfolding process_from at_name get_string get_integer get_bool
  process_from-object b name (pid, size, name', method) = λ i. record {
    name = name' i;
    system_process_id = to_int-of_int b.system_process_id pid i;
    is_local_process =
        get_bool_default (some (bool_node c (codes "isLocalProcess") b.is_local_process)) i;
    start_method = method i;
    pointer_size = to_int-of_int b.pointer_size size i;
  }

  -- The children of the object "body".
  abbrev body_nodes : EventBody → Nodes c.Double
  body_nodes initialized = nil
  body_nodes terminated = nil
  body_nodes (stopped b) = stopped_nodes b
  body_nodes (continued thread_id all_threads_continued) =
      cons (int_node c (codes "threadId") thread_id)
        (cons (bool_node c (codes "allThreadsContinued") all_threads_continued) nil)
  body_nodes (exited exit_code) = cons (int_node c (codes "exitCode") exit_code) nil
  body_nodes (thread reason thread_id) =
      cons (string_node c (codes "reason") reason)
        (cons (int_node c (codes "threadId") thread_id) nil)
  body_nodes (output category text) =
      cons (string_node c (codes "category") category)
        (cons (string_node c (codes "output") text) nil)
  body_nodes (breakpoint reason b) =
      cons (string_node c (codes "reason") reason)
        (cons (object_node c (codes "breakpoint") (breakpoint_nodes c b)) nil)
  body_nodes (process b) = process_nodes b
  body_nodes (debugpy_waiting host port) =
      cons (string_node c (codes "host") host) (cons (int_node c (codes "port") port) nil)

  -- Every number is an `int`, a source's reference is not negative, and each text is read as
  -- it is stored.
  abbrev pub IsBody : EventBody → Type 0
  IsBody initialized = Unit
  IsBody terminated = Unit
  IsBody (stopped b) = IsStopped b
  IsBody (continued thread_id all_threads_continued) = IsInt thread_id
  IsBody (exited exit_code) = IsInt exit_code
  IsBody (thread reason thread_id) = IsInt thread_id × IsKept c reason
  IsBody (output category text) = IsKept c category × IsKept c text
  IsBody (breakpoint reason b) = IsKept c reason × IsBreakpoint c b
  IsBody (process b) = IsProcess b
  IsBody (debugpy_waiting host port) = IsInt port × IsKept c host

  abbrev optional_body : EventBody → Option (Json c.Double)
  optional_body initialized = none
  optional_body terminated = none
  optional_body b = some (object c (body_nodes b))

  body_to-object : (b : EventBody) → body_to c b ≡ optional_body b
  unfolding body_to
  body_to-object initialized = refl
  body_to-object terminated = refl
  body_to-object (stopped b) = ap some (stopped_to-object b)
  body_to-object (continued t a) = simp building
  body_to-object (exited e) = simp building
  body_to-object (thread r t) = simp building
  body_to-object (output k o) = simp building
  body_to-object (breakpoint r b) = simp (building, breakpoint_to-object)
  body_to-object (process b) = ap some (process_to-object b)
  body_to-object (debugpy_waiting h p) = simp building

  body_from-object :
      (b : EventBody)
      → IsBody b
      → body_from c (class_of b) (some (object_node c (codes "body") (body_nodes b)))
        ≡ event_body_read b
  unfolding body_from at_name get_string get_integer
  body_from-object initialized h = refl
  body_from-object terminated h = refl
  body_from-object (stopped b) h = ap stopped (stopped_from-object b (codes "body") h)
  body_from-object (continued t a) h =
      λ i. continued (to_int-of_int t h i) (read_bool-bool_node c (codes "allThreadsContinued") a i)
  body_from-object (exited e) h = λ i. exited (to_int-of_int e h i)
  body_from-object (thread r t) (h, k) = λ i. thread (k i) (to_int-of_int t h i)
  body_from-object (output k o) (hk, ho) = λ i. output (hk i) (ho i)
  body_from-object (breakpoint r b) (k, h) =
      ap₂ breakpoint k (breakpoint_from-object c (codes "breakpoint") b h)
  body_from-object (process b) h = ap process (process_from-object b (codes "body") h)
  body_from-object (debugpy_waiting host p) (h, k) =
      λ i. debugpy_waiting (k i) (to_int-of_int p h i)

  abbrev pub header_nodes : Event → Nodes c.Double → Nodes c.Double
  header_nodes e rest = cons (int_node c (codes "seq") e.base.seq) (
      cons (string_node c (codes "type") e.base.type)
        (cons (string_node c (codes "event") e.event) rest))

  pub event_to-object : (e : Event) → event_to c e ≡ object c (header_nodes e nil)
  unfolding event_to
  event_to-object e = simp building

  abbrev pub IsEvent : Event → Type 0
  IsEvent e = IsInt e.base.seq × IsKept c e.base.type × IsKept c e.event

  pub event_from-object :
      (e : Event) (rest : Nodes c.Double)
      → IsEvent e
      → event_from c (object c (header_nodes e rest)) ≡ e
  unfolding event_from at_name get_string get_number
  event_from-object e rest (h, type, event) = λ i. record {
    base = record { seq = to_int-of_int e.base.seq h i; type = type i };
    event = event i;
  }

  -- The message with its header and body written out.
  whole : Event → Option (Json c.Double) → Json c.Double
  whole e body = with_body c (object c (header_nodes e nil)) body

  whole-none : (e : Event) → whole e none ≡ object c (header_nodes e nil)
  unfolding whole with_body
  whole-none e = refl

  whole-some :
      (e : Event) (ns : Nodes c.Double)
      → whole e (some (object c ns))
        ≡ object c (header_nodes e (cons (object_node c (codes "body") ns) nil))
  unfolding whole with_body
  whole-some e ns = add_item-object c (header_nodes e nil) (codes "body") ns

  read_whole :
      (e : Event) (b : EventBody)
      → IsEvent e
      → IsBody b
      → event_message_from c
          (class_of b)
          (object c (header_nodes e (cons (object_node c (codes "body") (body_nodes b)) nil)))
        ≡ record { base = e; body = event_body_read b }
  unfolding event_message_from at_name
  read_whole e b h hb = λ i. record {
    base = event_from-object e (cons (object_node c (codes "body") (body_nodes b)) nil) h i;
    body = body_from-object b hb i;
  }

  read_optional :
      (e : Event) (b : EventBody)
      → IsEvent e
      → IsBody b
      → event_message_from c (class_of b) (whole e (optional_body b))
        ≡ record { base = e; body = event_body_read b }
  read_optional e initialized h hb = rw (whole-none e) (
      unfold event_message_from body_from in
      λ i. record { base = event_from-object e nil h i; body = initialized })
  read_optional e terminated h hb = rw (whole-none e) (
      unfold event_message_from body_from in
      λ i. record { base = event_from-object e nil h i; body = terminated })
  read_optional e b h hb = rw (whole-some e (body_nodes b)) (read_whole e b h hb)

  -- Every event that `To` writes, of any class that the library registers but `ModuleEvent`, is
  -- read back by `From` as it was, but that a process is read as a local one, whatever it was;
  -- provided that its numbers are of 32 bits, that each of its texts is read as it was stored, as ASCII
  -- without a NUL is, and that a breakpoint's source has no negative reference.
  pub event_message_from-to :
      (e : EventMessage)
      → IsEvent e.base
      → IsBody e.body
      → event_message_from c (class_of e.body) (event_message_to c e)
        ≡ record { base = e.base; body = event_body_read e.body }
  unfolding event_message_to
  event_message_from-to e h hb =
      rw (event_to-object e.base, body_to-object e.body)
        (unfold whole in read_optional e.base e.body h hb)
