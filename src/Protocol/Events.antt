-- ===== src/Protocol/Events.antt =====
-- dap/dap.hpp and dap/dap.cpp: the classes of events, one constructor for each. `To` and `From` are
-- virtual: here they go by the constructor.
pub mod RoundTrip
use wxdap.Base.{ℕ, Bool, true, false, Option, none, some, [], Bytes, codes}
use wxdap.Decimal.{ℤ, pos, negsuc}
use wxdap.Json.{CJson, Json, get_string, get_number, get_integer, get_bool, at_name}
use wxdap.Json.Build.{create_object, add_string, add_int, add_bool, add_object, add_item}
use wxdap.Protocol.{
  Event, Source, Breakpoint, event_to, event_from, read_string, read_int, read_bool, read_number,
  not_found,
}
use wxdap.Protocol.Structs.{breakpoint_to, breakpoint_from}

pub record StoppedBody : Type 0 where
  pub reason : Bytes
  pub text : Bytes
  pub description : Bytes
  pub all_threads_stopped : Bool
  pub thread_id : ℤ

pub record ProcessBody : Type 0 where
  pub name : Bytes
  pub system_process_id : ℤ
  pub is_local_process : Bool
  pub start_method : Bytes
  pub pointer_size : ℤ

-- What each class adds to `Event`.
pub data EventBody : Type 0 where
  initialized terminated : EventBody
  stopped : StoppedBody → EventBody
  continued : ℤ → Bool → EventBody
  exited : ℤ → EventBody
  thread : Bytes → ℤ → EventBody
  output : Bytes → Bytes → EventBody
  breakpoint : Bytes → Breakpoint → EventBody
  process : ProcessBody → EventBody
  debugpy_waiting : Bytes → ℤ → EventBody

pub data EventClass : Type 0 where
  initialized_event terminated_event stopped_event continued_event exited_event thread_event :
      EventClass
  output_event breakpoint_event process_event debugpy_waiting_event : EventClass

abbrev pub class_of : EventBody → EventClass
class_of initialized = initialized_event
class_of terminated = terminated_event
class_of (stopped b) = stopped_event
class_of (continued t a) = continued_event
class_of (exited e) = exited_event
class_of (thread r t) = thread_event
class_of (output c o) = output_event
class_of (breakpoint r b) = breakpoint_event
class_of (process b) = process_event
class_of (debugpy_waiting h p) = debugpy_waiting_event

pub record EventMessage : Type 0 where
  pub base : Event
  pub body : EventBody

module _ (c : CJson) where
  open c use {Double, of_int, to_int}

  unfoldable pub stopped_to : StoppedBody → Json Double
  stopped_to b =
      let j1 = add_string c (create_object c) (codes "reason") b.reason in
      let j2 = add_string c j1 (codes "text") b.text in
      let j3 = add_string c j2 (codes "description") b.description in
      let j4 = add_bool c j3 (codes "allThreadsStopped") b.all_threads_stopped in
      add_int c j4 (codes "threadId") b.thread_id

  unfoldable pub stopped_from : Json Double → StoppedBody
  stopped_from j = record {
    reason = read_string c j (codes "reason");
    text = read_string c j (codes "text");
    description = read_string c j (codes "description");
    all_threads_stopped = read_bool c j (codes "allThreadsStopped");
    thread_id = read_int c j (codes "threadId");
  }

  unfoldable pub process_to : ProcessBody → Json Double
  process_to b =
      let j1 = add_string c (create_object c) (codes "name") b.name in
      let j2 = add_int c j1 (codes "systemProcessId") b.system_process_id in
      let j3 = add_bool c j2 (codes "isLocalProcess") b.is_local_process in
      let j4 = add_string c j3 (codes "startMethod") b.start_method in
      add_int c j4 (codes "pointerSize") b.pointer_size

  unfoldable pub process_from : Json Double → ProcessBody
  process_from j = record {
    name = read_string c j (codes "name");
    system_process_id = read_int c j (codes "systemProcessId");
    is_local_process = get_bool (at_name j (codes "isLocalProcess")) true;
    start_method = read_string c j (codes "startMethod");
    pointer_size = read_int c j (codes "pointerSize");
  }

  -- What `To` puts into the object "body"; `none` where the class has none.
  unfoldable pub body_to : EventBody → Option (Json Double)
  body_to initialized = none
  body_to terminated = none
  body_to (stopped b) = some (stopped_to b)
  body_to (continued thread_id all_threads_continued) = some (
      add_bool c (add_int c (create_object c) (codes "threadId") thread_id)
        (codes "allThreadsContinued") all_threads_continued)
  body_to (exited exit_code) = some (add_int c (create_object c) (codes "exitCode") exit_code)
  body_to (thread reason thread_id) = some (
      add_int c (add_string c (create_object c) (codes "reason") reason) (codes "threadId")
        thread_id)
  body_to (output category text) = some (
      add_string c (add_string c (create_object c) (codes "category") category) (codes "output")
        text)
  body_to (breakpoint reason b) = some (
      add_object c (add_string c (create_object c) (codes "reason") reason) (codes "breakpoint")
        (breakpoint_to c b))
  body_to (process b) = some (process_to b)
  body_to (debugpy_waiting host port) =
      some (add_int c (add_string c (create_object c) (codes "host") host) (codes "port") port)

  unfoldable pub with_body : Json Double → Option (Json Double) → Json Double
  with_body j none = j
  with_body j (some body) = add_item c j (codes "body") body

  -- `To`
  unfoldable pub event_message_to : EventMessage → Json Double
  event_message_to e = with_body (event_to c e.base) (body_to e.body)

  unfoldable pub body_from : EventClass → Json Double → EventBody
  body_from initialized_event body = initialized
  body_from terminated_event body = terminated
  body_from stopped_event body = stopped (stopped_from body)
  body_from continued_event body =
      continued (read_int c body (codes "threadId"))
        (read_bool c body (codes "allThreadsContinued"))
  body_from exited_event body = exited (read_int c body (codes "exitCode"))
  body_from thread_event body =
      thread (read_string c body (codes "reason")) (read_int c body (codes "threadId"))
  body_from output_event body =
      output (read_string c body (codes "category")) (read_string c body (codes "output"))
  body_from breakpoint_event body =
      breakpoint (read_string c body (codes "reason"))
        (breakpoint_from c (at_name body (codes "breakpoint")))
  body_from process_event body = process (process_from body)
  body_from debugpy_waiting_event body =
      debugpy_waiting (read_string c body (codes "host")) (read_int c body (codes "port"))

  -- `From` of an object of the class.
  unfoldable pub event_message_from : EventClass → Json Double → EventMessage
  event_message_from k j = record {
    base = event_from c j;
    body = body_from k (at_name j (codes "body"));
  }
