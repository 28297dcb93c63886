-- ===== src/Examples/Transport.antt =====
-- Messages through a socket and through pipes.
use wxdap.Base.{
  ◌≡◌, ◌<◌, ◌+◌, refl, true, false, some, List, [], ◌∷◌, ◌++◌, ◌⊎◌, Bytes, codes, arith, concat,
  length, none,
}
use wxdap.Decimal.{pos}
use wxdap.Transport.Sockets.{Round, select_timed_out, send_answers, returned, socket_send}
use wxdap.Transport.Sockets.Sending.{socket_send_all, IsBeginning}
use wxdap.Transport.Pipes.{
  WriteRound, wrote, write_interrupted, stopped, write_message, Conversion, PollRound, read_bytes,
  poll_timed_out, read_all, max_buff_size, do_read,
}
use wxdap.Transport.Pipes.Writing.{write_message-IsBeginning, write_message_all}
use wxdap.Transport.Pipes.Reading.{read_all_bounded, read_all_lem, bytes_read, IsFullOf}
use wxdap.Transport.Queues.{
  Streams, Happening, thread_reads, client_reads, Reach, here, next, thread_step, client_step,
  reader_round, stdout_read,
}
use wxdap.Transport.Queues.Fifo.{Reach-balance, IsBalanced, all_read, all_got}

-- Two calls that take a byte each, and a timeout between them.
abbrev socket_rounds : List Round
socket_rounds = send_answers (pos 1) ∷ select_timed_out ∷ send_answers (pos 1) ∷ []

abbrev four_bytes : Bytes
four_bytes = codes "abcd"

socket_send_all_example : socket_send true socket_rounds (codes "ok") ≡ (codes "ok", returned)
socket_send_all_example =
    socket_send_all socket_rounds (codes "ok") (omega arith)
      (omega arith, omega arith, (omega arith, omega arith, tt)) (omega arith)

abbrev pipe_rounds : List WriteRound
pipe_rounds = wrote 3 ∷ write_interrupted ∷ stopped ∷ []

-- A locale of one byte for each character.
abbrev single_bytes : Conversion
single_bytes = record {
  characters = λ s. s;
  encoded = λ s. s;
  characters_lem = λ s h. refl;
  encoded_lem = λ s h. refl;
}

write_message-IsBeginning_example :
    IsBeginning (write_message single_bytes pipe_rounds four_bytes).0 four_bytes
    × ((write_message single_bytes pipe_rounds four_bytes).1 ≡ some true
        → (write_message single_bytes pipe_rounds four_bytes).0 ≡ four_bytes)
write_message-IsBeginning_example =
    write_message-IsBeginning single_bytes pipe_rounds four_bytes refl

write_message_all_example :
    write_message single_bytes (wrote 1 ∷ write_interrupted ∷ wrote 0 ∷ wrote 1 ∷ []) (codes "ok")
    ≡ (codes "ok", some true)
write_message_all_example =
    write_message_all single_bytes (wrote 1 ∷ write_interrupted ∷ wrote 0 ∷ wrote 1 ∷ [])
      (codes "ok") refl (omega arith, (omega arith, (omega arith, tt))) (omega arith)

abbrev poll_rounds : List PollRound
poll_rounds = read_bytes (codes "Con") ∷ read_bytes (codes "tent") ∷ poll_timed_out ∷ []

read_all_bounded_example : length (read_all poll_rounds []).0 < max_buff_size + 1023
read_all_bounded_example =
    read_all_bounded poll_rounds [] (omega arith) (omega arith, (omega arith, (tt, tt)))

read_all_lem_example :
    ((read_all poll_rounds []).0 ≡ [] ++ bytes_read poll_rounds)
    ⊎ IsFullOf (read_all poll_rounds []).0 ([] ++ bytes_read poll_rounds)
read_all_lem_example = read_all_lem poll_rounds [] (
  (omega arith, (omega arith, (omega arith, tt))),
  ((omega arith, (omega arith, (omega arith, (omega arith, tt)))), (tt, tt)),
)

abbrev no_streams : Streams
no_streams = record { stdout_queue = []; stderr_queue = []; shutdown = false }

abbrev after_read : Streams
after_read = reader_round no_streams (do_read true poll_rounds [])

abbrev read_and_got : List Happening
read_and_got =
    thread_reads true poll_rounds []
    ∷ client_reads true (stdout_read true (some after_read)).0
    ∷ client_reads false none
    ∷ []

read_and_got-Reach : Reach (some no_streams) read_and_got none
unfolding stdout_read reader_round do_read
read_and_got-Reach =
    next
      (next (next here (thread_step no_streams true poll_rounds [] refl))
        (client_step (some after_read) true))
      (client_step (stdout_read true (some after_read)).1 false)

Reach-balance_example :
    IsBalanced (concat no_streams.stdout_queue ++ all_read read_and_got) (all_got read_and_got) none
Reach-balance_example = Reach-balance read_and_got-Reach
