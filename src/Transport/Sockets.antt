-- ===== src/Transport/Sockets.antt =====
-- dap/Socket.cpp: `Send`, `SelectWriteMS`, `SelectReadMS` and `Read`; and dap/Client.cpp:
-- `SocketTransport`.
pub mod Sending
use wxdap.Base.{
  ℕ, zero, suc, ◌+◌, ◌*◌, ◌-◌, Bool, true, false, Option, none, some, List, [], ◌∷◌, ◌++◌, Bytes,
  length, take, drop, if◌then◌else◌,
}
use wxdap.Json.{is_zero}
use wxdap.Decimal.{ℤ, pos, negsuc, int_of_size, minus}

-- What `select` answers: 0, a positive number, or a negative one.
pub data Selected : Type 0 where
  timed_out ready failed : Selected

-- A round of the loop of `Send`: `select` timed out or failed, or `send` answered.
pub data Round : Type 0 where
  select_timed_out select_failed : Round
  send_answers : ℤ → Round

-- How the loop ended: it returned, it threw, or it is still running.
pub data Ended : Type 0 where
  returned thrown running : Ended

-- The bytes that were handed to `send`, and how the loop ended. `rest` is what `pdata` points to, and
-- `left` is `bytesLeft`.
unfoldable pub send_loop : List Round → Bytes → ℤ → Bytes × Ended
unfolding minus
send_loop [] rest left = if is_zero left then ([], returned) else ([], running)
send_loop (select_timed_out ∷ rounds) rest left =
    let later = send_loop rounds rest left in if is_zero left then ([], returned) else later
send_loop (select_failed ∷ rounds) rest left = if is_zero left then ([], returned) else ([], thrown)
send_loop (send_answers (pos (suc n)) ∷ rounds) rest left =
    let (out, ended) = send_loop rounds (drop (suc n) rest) (minus left (suc n)) in
    if is_zero left then ([], returned) else (take (suc n) rest ++ out, ended)
send_loop (send_answers sent ∷ rounds) rest left =
    if is_zero left then ([], returned) else ([], thrown)

-- `Send` on a socket that is valid or not.
unfoldable pub socket_send : Bool → List Round → Bytes → Bytes × Ended
unfolding send_loop int_of_size
socket_send false rounds msg = ([], thrown)
socket_send true rounds [] = ([], returned)
socket_send true rounds (b ∷ msg) = send_loop rounds (b ∷ msg) (int_of_size (length (b ∷ msg)))

-- `SocketTransport::Send`: the number that it returns, once it does.
unfoldable pub transport_send : Bool → List Round → Bytes → Option ℕ
unfolding socket_send
transport_send valid rounds msg = elim (socket_send valid rounds msg).1 [
  | returned ↦ some (length msg)
  | thrown ↦ some 0
  | running ↦ none
]

-- What `recv` answers: bytes, 0 for the end, the error that the call would block, or another error.
pub data Received : Type 0 where
  bytes : Bytes → Received
  closed would_block broken : Received

-- `Read` into the buffer: kSuccess, kTimeout, or an exception.
pub data ReadResult : Type 0 where
  success : Bytes → ReadResult
  timeout exception : ReadResult

unfoldable pub socket_read : Received → ReadResult
socket_read (bytes []) = exception
socket_read (bytes (b ∷ s)) = success (b ∷ s)
socket_read closed = exception
socket_read would_block = timeout
socket_read broken = exception

-- `SocketTransport::Read`: `none` is false.
unfoldable pub transport_read : Bool → Selected → Received → Option Bytes
unfolding socket_read
transport_read false selected answer = none
transport_read true timed_out answer = some []
transport_read true failed answer = none
transport_read true ready answer = elim (socket_read answer) [
  | success content ↦ some content
  | timeout ↦ none
  | exception ↦ none
]

-- What an attempt of `SocketClient::Connect` gives: true, false, or an exception, which is for the
-- caller.
pub data Attempt : Type 0 where
  connected refused unsupported : Attempt

pub data ConnectResult : Type 0 where
  connect_result : Bool → ConnectResult
  connect_thrown : ConnectResult

-- The loop of `SocketTransport::Connect`: `attempt i` is the answer to the attempt number i.
unfoldable pub connect_loop : (ℕ → Attempt) → ℕ → ℕ → ConnectResult
connect_loop attempt zero i = connect_result false
connect_loop attempt (suc loops) i = elim (attempt i) [
  | connected ↦ connect_result true
  | refused ↦ connect_loop attempt loops (i + 1)
  | unsupported ↦ connect_thrown
]

-- Not on Windows, for a timeout that is not negative.
unfoldable pub transport_connect : (ℕ → Attempt) → ℕ → ConnectResult
unfolding connect_loop
transport_connect attempt timeout_seconds = connect_loop attempt (timeout_seconds * 1000) 0
