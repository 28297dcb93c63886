-- ===== src/Transport/Sockets/Sending.antt =====
-- dap/Socket.cpp, `Send`: what is sent, and that it returns.
use wxdap.Base.{
  Bool-cases, inl, inr, ℕ, zero, suc, ◌-◌, ◌≤◌, ◌<◌, ◌≡◌, refl, sym, ap, ◌∙◌, Bool, true, false,
  List, [], ◌∷◌, ◌++◌, Bytes, length, take, drop, append-take-drop, append_assoc, arith,
}
use wxdap.Decimal.{ℤ, pos, negsuc, int_of_size_small, minus, minus_pos}
use wxdap.Json.{is_zero}
use wxdap.Transport.Sockets.{
  select_timed_out, select_failed, send_answers, Round, returned, send_loop, socket_send,
}

-- Each round either times out or sends at least one byte and no more than are left.
abbrev pub IsWorking : List Round → ℕ → Type 0
IsWorking [] left = Unit
IsWorking (select_timed_out ∷ rounds) left = IsWorking rounds left
IsWorking (select_failed ∷ rounds) left = ⊥
IsWorking (send_answers (pos n) ∷ rounds) left = (0 < n) × (n ≤ left) × IsWorking rounds (left - n)
IsWorking (send_answers (negsuc n) ∷ rounds) left = ⊥

-- The number of rounds that are not timeouts.
abbrev pub sending_rounds : List Round → ℕ
sending_rounds [] = 0
sending_rounds (send_answers n ∷ rounds) = suc (sending_rounds rounds)
sending_rounds (r ∷ rounds) = sending_rounds rounds

-- What was handed over is the beginning.
abbrev pub IsBeginning : Bytes → Bytes → Type 0
IsBeginning out whole = (later : Bytes) × (out ++ later ≡ whole)

-- The loop stops as soon as nothing is left.
send_loop_stop :
    (rounds : List Round) (rest : Bytes) (left : ℤ)
    → is_zero left ≡ true
    → send_loop rounds rest left ≡ ([], returned)
unfolding send_loop
send_loop_stop [] rest left h = rw h refl
send_loop_stop (select_timed_out ∷ rounds) rest left h = rw h refl
send_loop_stop (select_failed ∷ rounds) rest left h = rw h refl
send_loop_stop (send_answers (pos zero) ∷ rounds) rest left h = rw h refl
send_loop_stop (send_answers (pos (suc n)) ∷ rounds) rest left h = rw h refl
send_loop_stop (send_answers (negsuc n) ∷ rounds) rest left h = rw h refl

unless_stopped :
    (rounds : List Round) (rest : Bytes) (left : ℤ)
    → (is_zero left ≡ false → IsBeginning (send_loop rounds rest left).0 rest)
    → IsBeginning (send_loop rounds rest left).0 rest
unless_stopped rounds rest left go = elim (Bool-cases (is_zero left)) [
  | inl h ↦ rw (send_loop_stop rounds rest left h) (rest, refl)
  | inr h ↦ go h
]

send_loop-IsBeginning :
    (rounds : List Round) (rest : Bytes) (left : ℤ)
    → IsBeginning (send_loop rounds rest left).0 rest
unfolding send_loop
send_loop-IsBeginning [] rest left = unless_stopped [] rest left (λ h. rw h (rest, refl))
send_loop-IsBeginning (select_timed_out ∷ rounds) rest left =
    unless_stopped (select_timed_out ∷ rounds) rest left
      (λ h. rw h (send_loop-IsBeginning rounds rest left))
send_loop-IsBeginning (select_failed ∷ rounds) rest left =
    unless_stopped (select_failed ∷ rounds) rest left (λ h. rw h (rest, refl))
send_loop-IsBeginning (send_answers (pos zero) ∷ rounds) rest left =
    unless_stopped (send_answers (pos zero) ∷ rounds) rest left (λ h. rw h (rest, refl))
send_loop-IsBeginning (send_answers (pos (suc n)) ∷ rounds) rest left =
    let (later, e) = send_loop-IsBeginning rounds (drop (suc n) rest) (minus left (suc n)) in
    unless_stopped (send_answers (pos (suc n)) ∷ rounds) rest left (λ h. rw h (
      later,
      append_assoc (take (suc n) rest) _ later
          ∙ ap (λ x. take (suc n) rest ++ x) e
          ∙ append-take-drop (suc n) rest,
    ))
send_loop-IsBeginning (send_answers (negsuc n) ∷ rounds) rest left =
    unless_stopped (send_answers (negsuc n) ∷ rounds) rest left (λ h. rw h (rest, refl))

is_zero_pos : (n : ℕ) → 0 < n → is_zero (pos n) ≡ false
is_zero_pos zero h = absurd (omega arith)
is_zero_pos (suc n) h = refl

pub length-drop : (n : ℕ) (s : Bytes) → length (drop n s) ≡ length s - n
length-drop zero s = omega arith
length-drop (suc n) [] = omega arith
length-drop (suc n) (b ∷ s) = omega (arith, length-drop n s)

send_loop_all :
    (rounds : List Round) (rest : Bytes) (left : ℕ)
    → left ≡ length rest
    → IsWorking rounds left
    → left ≤ sending_rounds rounds
    → send_loop rounds rest (pos left) ≡ (rest, returned)
unfolding send_loop
send_loop_all rounds [] left e h enough =
    ap (λ n. send_loop rounds [] (pos n)) e ∙ send_loop_stop rounds [] (pos 0) refl
send_loop_all [] (b ∷ rest) left e h enough = absurd (omega arith)
send_loop_all (select_timed_out ∷ rounds) (b ∷ rest) left e h enough =
    rw (is_zero_pos left (omega arith)) (send_loop_all rounds (b ∷ rest) left e h enough)
send_loop_all (select_failed ∷ rounds) (b ∷ rest) left e h enough = absurd h
send_loop_all (send_answers (pos zero) ∷ rounds) (b ∷ rest) left e (some_sent, fits, h) enough =
    absurd (omega arith)
send_loop_all (send_answers (pos (suc n)) ∷ rounds) (b ∷ rest) left e (some_sent, fits, h) enough =
    let ih =
      send_loop_all rounds (drop (suc n) (b ∷ rest)) (left - suc n)
        (ap (λ l. l - suc n) e ∙ sym (length-drop (suc n) (b ∷ rest))) h (omega arith) in
    rw (is_zero_pos left (omega arith), minus_pos left (suc n) fits, ih)
      (ap (λ s. (s, returned)) (append-take-drop (suc n) (b ∷ rest)))
send_loop_all (send_answers (negsuc n) ∷ rounds) (b ∷ rest) left e h enough = absurd h

-- `Send` hands the operating system a beginning of the message, byte for byte and in order, whatever
-- the system answers and however far the loop has come, and whether it returns or throws.
pub socket_send-IsBeginning :
    (valid : Bool) (rounds : List Round) (msg : Bytes)
    → IsBeginning (socket_send valid rounds msg).0 msg
unfolding socket_send
socket_send-IsBeginning false rounds msg = (msg, refl)
socket_send-IsBeginning true rounds [] = ([], refl)
socket_send-IsBeginning true rounds (b ∷ msg) = send_loop-IsBeginning rounds (b ∷ msg) _

-- `Send` sends the whole message and returns, on a valid socket, once `send` was asked as often as the
-- message has bytes; provided that the message is shorter than 2^31 bytes, that `select` does not
-- fail but may time out any number of times, and that each `send` takes at least one byte, and no more
-- than it was given.
pub socket_send_all :
    (rounds : List Round) (msg : Bytes)
    → length msg < 2147483648
    → IsWorking rounds (length msg)
    → length msg ≤ sending_rounds rounds
    → socket_send true rounds msg ≡ (msg, returned)
unfolding socket_send
socket_send_all rounds [] small h enough = refl
socket_send_all rounds (b ∷ msg) small h enough =
    rw (int_of_size_small (length (b ∷ msg)) small)
      (send_loop_all rounds (b ∷ msg) (length (b ∷ msg)) refl h enough)
