-- ===== src/Transport/Pipes.antt =====
-- dap/UnixProcess.cpp: `Write`, `ReadAll` and `DoRead` on the pipes of a child process.
pub mod Writing
pub mod Reading
use wxdap.Base.{
  ◌≡◌, ℕ, zero, suc, ◌+◌, ◌*◌, min, Bool, true, false, ◌||◌, not, Option, none, some, List, [], ◌∷◌,
  ◌++◌, Bytes, length, take, drop, leb, if◌then◌else◌,
}
use wxdap.Json.{IsPlain}
use wxdap.Text.{c_str}
use wxdap.Protocol.Structs.{is_empty}

-- A round of the loop of `Write`: the flag was set when it was tested, or `write` answered with a
-- number of bytes, EAGAIN or EWOULDBLOCK, EINTR, or another error.
pub data WriteRound : Type 0 where
  stopped write_blocked write_interrupted write_broken : WriteRound
  wrote : ℕ → WriteRound

-- What wxWidgets does between bytes and the characters of a `wxString`, by the current locale: the
-- characters of a `std::string`, and the bytes that `c_str()` gives to `write`. ASCII is kept in every
-- locale.
pub record Conversion : Type 0 where
  pub characters : Bytes → List ℕ
  pub encoded : List ℕ → Bytes
  pub characters_lem : (s : Bytes) → IsPlain s → characters s ≡ s
  pub encoded_lem : (s : Bytes) → IsPlain s → encoded s ≡ s

-- How many bytes `write` is asked to write: as many as there are characters, at most 4096.
abbrev pub chunk_of : List ℕ → ℕ
chunk_of tmp = min 4096 (length tmp)

module _ (conv : Conversion) where
  open conv use {characters, encoded}

  -- The loop of `Write` on the characters that are left: the bytes that were written, of the encoding of
  -- those characters, and the result, once there is one. As many characters are erased as bytes were
  -- written.
  unfoldable pub write_loop : List WriteRound → List ℕ → Bytes × Option Bool
  write_loop rounds [] = ([], some true)
  write_loop [] (b ∷ tmp) = ([], none)
  write_loop (stopped ∷ rounds) (b ∷ tmp) = ([], some false)
  write_loop (write_blocked ∷ rounds) (b ∷ tmp) = write_loop rounds (b ∷ tmp)
  write_loop (write_interrupted ∷ rounds) (b ∷ tmp) = write_loop rounds (b ∷ tmp)
  write_loop (write_broken ∷ rounds) (b ∷ tmp) = ([], some false)
  write_loop (wrote n ∷ rounds) (b ∷ tmp) =
      let (out, result) = write_loop rounds (drop n (b ∷ tmp)) in
      (take n (encoded (b ∷ tmp)) ++ out, result)

  -- `Write(const std::string&)`
  unfoldable pub write_message : List WriteRound → Bytes → Bytes × Option Bool
  unfolding write_loop
  write_message rounds message = write_loop rounds (characters message)

  -- `StdoutTransport::Send`: the number that it returns, once it does.
  unfoldable pub pipe_send : Bool → List WriteRound → Bytes → Option ℕ
  unfolding write_message
  pipe_send alive rounds buffer =
      if not alive then some 0 else elim (write_message rounds buffer).1 [
        | none ↦ none
        | some done ↦ some (if done then length buffer else 0)
      ]

-- A round of `ReadAll`: `select` timed out or failed, or `read` gave bytes or nothing.
pub data PollRound : Type 0 where
  poll_timed_out poll_failed read_nothing : PollRound
  read_bytes : Bytes → PollRound

abbrev pub chunk_size : ℕ
chunk_size = 1024

abbrev pub max_buff_size : ℕ
max_buff_size = 1024 * 2048

-- `content` at the end, and the result, once there is one. `append` takes the buffer as a C string.
unfoldable pub read_all : List PollRound → Bytes → Bytes × Option Bool
unfolding c_str
read_all [] content = (content, none)
read_all (poll_timed_out ∷ rounds) content = (content, some true)
read_all (poll_failed ∷ rounds) content = (content, some false)
read_all (read_nothing ∷ rounds) content = (content, some false)
read_all (read_bytes buff ∷ rounds) content =
    let content' = content ++ c_str buff in
    let later = read_all rounds content' in
    if leb max_buff_size (length content') then (content', some true) else later

-- `DoRead`: its result and the two buffers.
unfoldable pub do_read : Bool → List PollRound → List PollRound → Bool × Bytes × Bytes
unfolding read_all
do_read alive stdout_rounds stderr_rounds =
    if not alive
    then (false, [], [])
    else (let str = (read_all stdout_rounds []).0 in
        let err_buff = (read_all stderr_rounds []).0 in
        (not (is_empty str) || not (is_empty err_buff), str, err_buff))
