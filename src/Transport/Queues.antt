-- ===== src/Transport/Queues.antt =====
-- dap/Queue.hpp, dap/Process.cpp and `StdoutTransport::Read` of dap/Client.cpp: the thread that reads the
-- child's pipes, the two queues that it fills, and the reader on the other side. Each holds the
-- queue's lock, so that its steps are one after the other, in any order.
pub mod Fifo
use wxdap.Base.{
  Bool, true, false, ◌&&◌, ◌||◌, not, Option, none, some, List, [], ◌∷◌, ◌++◌, ◌≡◌, Bytes,
  if◌then◌else◌,
}
use wxdap.Protocol.Structs.{is_empty}
use wxdap.Transport.Pipes.{PollRound, do_read}

module _ {ℓ} {T : Type ℓ} where
  -- `Queue::push` and `Queue::pop`: `none` where the queue stays empty until the time is up.
  unfoldable pub push : List T → T → List T
  push q o = q ++ o ∷ []

  unfoldable pub pop : List T → Option T × List T
  pop [] = (none, [])
  pop (o ∷ q) = (some o, q)

pub record Streams : Type 0 where
  pub stdout_queue : List Bytes
  pub stderr_queue : List Bytes
  pub shutdown : Bool

-- A buffer that is empty is not pushed.
unfoldable pub push_read : List Bytes → Bytes → List Bytes
unfolding push
push_read q buff = if is_empty buff then q else push q buff

-- A round of the loop of the reader thread, with the result of `DoRead` and its buffers.
unfoldable pub reader_round : Streams → Bool × Bytes × Bytes → Streams
unfolding push_read
reader_round s (success, out, err) =
    let something = not (is_empty out) || not (is_empty err) in
    if something && success
    then record s {
      stdout_queue = push_read s.stdout_queue out;
      stderr_queue = push_read s.stderr_queue err;
    }
    else s

-- `StdoutTransport::Read` of a transport with a process, or with none: `none` is false. A process that
-- is not alive any more is deleted, with its threads and its queues. The message on the standard error
-- is only logged.
unfoldable pub stdout_read : Bool → Option Streams → Option Bytes × Option Streams
unfolding pop
stdout_read alive none = (none, none)
stdout_read alive (some s) =
    if not alive
    then (none, none)
    else (let (message, q) = pop s.stdout_queue in
        let errs = (pop s.stderr_queue).1 in
        elim message [
          | none ↦ (some [], some s)
          | some m ↦ (some m, some (record s { stdout_queue = q; stderr_queue = errs }))
        ])

-- What the two sides do: a round of the thread, with what the system answers; a call of `Read`, with
-- its result; and the flag that ends the thread.
pub data Happening : Type 0 where
  thread_reads : (alive : Bool) → (stdout stderr : List PollRound) → Happening
  client_reads : (alive : Bool) → Option Bytes → Happening
  goes_down : Happening

pub data Step : Option Streams → Happening → Option Streams → Type 0 where
  thread_step :
      (s : Streams) (alive : Bool) (stdout stderr : List PollRound)
      → s.shutdown ≡ false
      → Step
          (some s)
          (thread_reads alive stdout stderr)
          (some (reader_round s (do_read alive stdout stderr)))
  client_step :
      (s : Option Streams) (alive : Bool)
      → Step s (client_reads alive (stdout_read alive s).0) (stdout_read alive s).1
  down_step : (s : Streams) → Step (some s) goes_down (some (record s { shutdown = true }))

-- What happened, the first first.
pub data Reach (s : Option Streams) : List Happening → Option Streams → Type 0 where
  here : Reach s [] s
  next :
      {hs : List Happening} {h : Happening} {t u : Option Streams}
      → Reach s hs t
      → Step t h u
      → Reach s (hs ++ h ∷ []) u
