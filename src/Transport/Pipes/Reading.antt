-- ===== src/Transport/Pipes/Reading.antt =====
-- dap/UnixProcess.cpp, `ReadAll`: what the buffer holds at the end, and its bound.
use wxdap.Base.{
  ◌+◌, ◌≤◌, ◌<◌, ◌≡◌, refl, ◌∙◌, Bool-cases, inl, inr, List, [], ◌∷◌, ◌++◌, Bytes, length,
  length-append, append_assoc, leb, arith, Lacks, All, sym, append-nil,
}
use wxdap.Text.{c_str}
use wxdap.Transport.Sockets.Sending.{IsBeginning}
use wxdap.Base.{◌⊎◌, inr}
use wxdap.Transport.Pipes.{
  PollRound, poll_timed_out, poll_failed, read_nothing, read_bytes, chunk_size, max_buff_size,
  read_all,
}

-- `read` gives no more than it is asked for.
abbrev pub IsPoll : PollRound → Type 0
IsPoll (read_bytes buff) = length buff < chunk_size
IsPoll _ = Unit

abbrev pub LacksNul : PollRound → Type 0
LacksNul (read_bytes buff) = Lacks 0 buff
LacksNul _ = Unit

abbrev pub bytes_read : List PollRound → Bytes
bytes_read [] = []
bytes_read (read_bytes buff ∷ rounds) = buff ++ bytes_read rounds
bytes_read (r ∷ rounds) = []

length-c_str : (s : Bytes) → length (c_str s) ≤ length s
unfolding c_str
length-c_str [] = omega arith
length-c_str (b ∷ s) = ground (arith, length-c_str s)

pub c_str-Lacks : (s : Bytes) → Lacks 0 s → c_str s ≡ s
unfolding c_str
c_str-Lacks [] h = refl
c_str-Lacks (b ∷ s) h = ground (arith, c_str-Lacks s)

-- A buffer of `ReadAll` never grows beyond 2 MiB and 1022 bytes: where it starts below 2 MiB, and each
-- `read` gives at most the 1023 bytes that it is asked for, it ends below 2 MiB and 1023 bytes,
-- whether it returns or is still running.
pub read_all_bounded :
    (rounds : List PollRound) (content : Bytes)
    → length content < max_buff_size
    → All IsPoll rounds
    → length (read_all rounds content).0 < max_buff_size + 1023
unfolding read_all
read_all_bounded [] content h hs = omega arith
read_all_bounded (poll_timed_out ∷ rounds) content h hs = omega arith
read_all_bounded (poll_failed ∷ rounds) content h hs = omega arith
read_all_bounded (read_nothing ∷ rounds) content h hs = omega arith
read_all_bounded (read_bytes buff ∷ rounds) content h (fits, hs) =
    let grown = length-append content (c_str buff) in
    let cut = length-c_str buff in
    elim (Bool-cases (leb max_buff_size (length (content ++ c_str buff)))) [
      | inl full ↦ rw full (omega arith)
      | inr more ↦ rw more (read_all_bounded rounds (content ++ c_str buff) (ground arith) hs)
    ]

-- The buffer is full, and holds a beginning of the bytes.
abbrev pub IsFullOf : Bytes → Bytes → Type 0
IsFullOf out whole = (max_buff_size ≤ length out) × IsBeginning out whole

-- `ReadAll` adds to the buffer the bytes that `read` gave, all of them, in order and with none left out
-- between, unless the buffer reached 2 MiB, where it holds a beginning of them; provided that none of
-- them is 0.
pub read_all_lem :
    (rounds : List PollRound) (content : Bytes)
    → All LacksNul rounds
    → ((read_all rounds content).0 ≡ content ++ bytes_read rounds)
      ⊎ IsFullOf (read_all rounds content).0 (content ++ bytes_read rounds)
unfolding read_all
read_all_lem [] content hs = inl (sym (append-nil content))
read_all_lem (poll_timed_out ∷ rounds) content hs = inl (sym (append-nil content))
read_all_lem (poll_failed ∷ rounds) content hs = inl (sym (append-nil content))
read_all_lem (read_nothing ∷ rounds) content hs = inl (sym (append-nil content))
read_all_lem (read_bytes buff ∷ rounds) content (h, hs) =
    let regroup = append_assoc content buff (bytes_read rounds) in
    rw (c_str-Lacks buff h) (elim (Bool-cases (leb max_buff_size (length (content ++ buff)))) [
      | inl full ↦ rw full (inr (ground arith, (bytes_read rounds, regroup)))
      | inr more ↦ rw more (elim (read_all_lem rounds (content ++ buff) hs) [
        | inl e ↦ inl (e ∙ regroup)
        | inr (long, (later, e)) ↦ inr (long, (later, e ∙ regroup))
      ])
    ])
