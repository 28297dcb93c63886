-- ===== src/Transport/Pipes/Writing.antt =====
-- dap/UnixProcess.cpp, `Write`: what is written, and that it returns.
use wxdap.Base.{
  ℕ, zero, suc, ◌≤◌, ◌≡◌, refl, ap, ◌∙◌, true, some, List, [], ◌∷◌, ◌++◌, Bytes, length, take, drop,
  append-take-drop, append_assoc, arith,
}
use wxdap.Json.{IsPlain}
use wxdap.Transport.Pipes.{
  WriteRound, stopped, write_blocked, write_interrupted, write_broken, wrote, chunk_of, Conversion,
  write_loop, write_message,
}
use wxdap.Transport.Sockets.Sending.{IsBeginning, length-drop}

drop-IsPlain : (n : ℕ) (s : Bytes) → IsPlain s → IsPlain (drop n s)
drop-IsPlain zero s plain = plain
drop-IsPlain (suc n) [] plain = refl
drop-IsPlain (suc n) (c ∷ s) plain = drop-IsPlain n s (ground arith)

-- The flag is not set and no error ends the loop; each round writes no more than it is asked to,
-- perhaps nothing.
abbrev pub IsWriting : List WriteRound → Bytes → Type 0
IsWriting [] tmp = Unit
IsWriting (stopped ∷ rounds) tmp = ⊥
IsWriting (write_blocked ∷ rounds) tmp = IsWriting rounds tmp
IsWriting (write_interrupted ∷ rounds) tmp = IsWriting rounds tmp
IsWriting (write_broken ∷ rounds) tmp = ⊥
IsWriting (wrote n ∷ rounds) tmp = (n ≤ chunk_of tmp) × IsWriting rounds (drop n tmp)

-- The number of rounds that write at least one byte.
abbrev pub writing_rounds : List WriteRound → ℕ
writing_rounds [] = 0
writing_rounds (wrote zero ∷ rounds) = writing_rounds rounds
writing_rounds (wrote (suc n) ∷ rounds) = suc (writing_rounds rounds)
writing_rounds (r ∷ rounds) = writing_rounds rounds

module _ (conv : Conversion) where
  open conv use {encoded, encoded_lem, characters_lem}

  -- What a round writes of plain characters, and what is left.
  part_of_plain : (n : ℕ) (tmp : Bytes) → IsPlain tmp → take n (encoded tmp) ++ drop n tmp ≡ tmp
  part_of_plain n tmp plain =
      ap (λ x. take n x ++ drop n tmp) (encoded_lem tmp plain) ∙ append-take-drop n tmp

  write_loop-IsBeginning :
      (rounds : List WriteRound) (msg : Bytes)
      → IsPlain msg
      → IsBeginning (write_loop conv rounds msg).0 msg
        × ((write_loop conv rounds msg).1 ≡ some true → (write_loop conv rounds msg).0 ≡ msg)
  unfolding write_loop
  write_loop-IsBeginning rounds [] plain = (([], refl), λ e. refl)
  write_loop-IsBeginning [] (b ∷ tmp) plain = ((b ∷ tmp, refl), λ e. cc)
  write_loop-IsBeginning (stopped ∷ rounds) (b ∷ tmp) plain = ((b ∷ tmp, refl), λ e. cc)
  write_loop-IsBeginning (write_blocked ∷ rounds) (b ∷ tmp) plain =
      write_loop-IsBeginning rounds (b ∷ tmp) plain
  write_loop-IsBeginning (write_interrupted ∷ rounds) (b ∷ tmp) plain =
      write_loop-IsBeginning rounds (b ∷ tmp) plain
  write_loop-IsBeginning (write_broken ∷ rounds) (b ∷ tmp) plain = ((b ∷ tmp, refl), λ e. cc)
  write_loop-IsBeginning (wrote n ∷ rounds) (b ∷ tmp) plain =
      let ((later, begins), whole) =
        write_loop-IsBeginning rounds (drop n (b ∷ tmp)) (drop-IsPlain n (b ∷ tmp) plain) in
      let part = part_of_plain n (b ∷ tmp) plain in
      (
        (
          later,
          append_assoc (take n (encoded (b ∷ tmp))) _ later
              ∙ ap (λ x. take n (encoded (b ∷ tmp)) ++ x) begins
              ∙ part,
        ),
        λ e. ap (λ x. take n (encoded (b ∷ tmp)) ++ x) (whole e) ∙ part,
      )

  -- Of a message in ASCII without a NUL, `Write` writes a beginning, byte for byte and in order, whatever
  -- the system answers; and where it returns true, that is the whole message.
  pub write_message-IsBeginning :
      (rounds : List WriteRound) (msg : Bytes)
      → IsPlain msg
      → IsBeginning (write_message conv rounds msg).0 msg
        × ((write_message conv rounds msg).1 ≡ some true → (write_message conv rounds msg).0 ≡ msg)
  unfolding write_message
  write_message-IsBeginning rounds msg plain =
      rw (characters_lem msg plain) (write_loop-IsBeginning rounds msg plain)

  write_loop_all :
      (rounds : List WriteRound) (msg : Bytes)
      → IsPlain msg
      → IsWriting rounds msg
      → length msg ≤ writing_rounds rounds
      → write_loop conv rounds msg ≡ (msg, some true)
  unfolding write_loop
  write_loop_all rounds [] plain h enough = refl
  write_loop_all [] (b ∷ tmp) plain h enough = absurd (omega arith)
  write_loop_all (stopped ∷ rounds) (b ∷ tmp) plain h enough = absurd h
  write_loop_all (write_blocked ∷ rounds) (b ∷ tmp) plain h enough =
      write_loop_all rounds (b ∷ tmp) plain h enough
  write_loop_all (write_interrupted ∷ rounds) (b ∷ tmp) plain h enough =
      write_loop_all rounds (b ∷ tmp) plain h enough
  write_loop_all (write_broken ∷ rounds) (b ∷ tmp) plain h enough = absurd h
  write_loop_all (wrote zero ∷ rounds) (b ∷ tmp) plain (fits, h) enough =
      rw (write_loop_all rounds (b ∷ tmp) plain h enough) refl
  write_loop_all (wrote (suc n) ∷ rounds) (b ∷ tmp) plain (fits, h) enough =
      let shorter = length-drop (suc n) (b ∷ tmp) in
      let rest = drop-IsPlain (suc n) (b ∷ tmp) plain in
      rw (write_loop_all rounds (drop (suc n) (b ∷ tmp)) rest h (omega arith))
        (ap (λ s. (s, some true)) (part_of_plain (suc n) (b ∷ tmp) plain))

  -- `Write` writes the whole of a message in ASCII without a NUL and returns true, once as many rounds as
  -- the message has bytes have written something; provided that the flag is not set, that no error but
  -- EAGAIN, EWOULDBLOCK and EINTR comes up, and that no round writes more than it was asked to.
  pub write_message_all :
      (rounds : List WriteRound) (msg : Bytes)
      → IsPlain msg
      → IsWriting rounds msg
      → length msg ≤ writing_rounds rounds
      → write_message conv rounds msg ≡ (msg, some true)
  unfolding write_message
  write_message_all rounds msg plain h enough =
      rw (characters_lem msg plain) (write_loop_all rounds msg plain h enough)
