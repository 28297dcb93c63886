-- ===== src/Log/Statement.antt =====
-- What a logging statement writes, and the names of the levels.
use wxdap.Base.{
  ℕ, ◌≡◌, refl, sym, ap, ◌∙◌, Bool, true, false, Bool-cases, inl, inr, ◌||◌, Option, none, some,
  List, [], ◌||◌, append-nil, ◌∷◌, ◌++◌, Bytes, codes, append_assoc, if◌then◌else◌, append-nil,
  arith,
}
use wxdap.Decimal.{ℤ, pos, negsuc}
use wxdap.Log.{
  int_less, error, developer, Settings, Log, Output, to_stdout, to_file, prefix, append, put,
  put_all, flush_text, flush, statement, get_verbosity_as_number, get_verbosity_as_string,
  level_tag, get_colour, get_colour_end, prefix_text,
}

-- A line of words, each behind a blank.
abbrev pub words : List Bytes → Bytes
words [] = []
words (w ∷ ws) = codes " " ++ w ++ words ws

-- Where a text goes.
abbrev pub destination : Bool → Settings → Bytes → Option Output
destination opens settings text =
    if settings.use_stdout
    then some (to_stdout text)
    else if opens
    then some (to_file settings.logfile text)
    else none

put_all_muted :
    (settings : Settings) (level : ℤ) (buffer : Bytes) (objs : List Bytes)
    → int_less settings.verbosity level ≡ true
    → put_all settings (record { requested_log_level = level; buffer = buffer }) objs
      ≡ record { requested_log_level = level; buffer = buffer }
unfolding put append
put_all_muted settings level buffer [] h = refl
put_all_muted settings level buffer (obj ∷ objs) h =
    rw h (put_all_muted settings level buffer objs h)

put_all_heard :
    (settings : Settings) (level : ℤ) (b : ℕ) (buffer : Bytes) (objs : List Bytes)
    → int_less settings.verbosity level ≡ false
    → put_all settings (record { requested_log_level = level; buffer = b ∷ buffer }) objs
      ≡ record { requested_log_level = level; buffer = (b ∷ buffer) ++ words objs }
unfolding put append
put_all_heard settings level b buffer [] h =
    ap (λ s. record { requested_log_level = level; buffer = b ∷ s }) (sym (append-nil buffer))
put_all_heard settings level b buffer (obj ∷ objs) h = rw h (
    put_all_heard settings level b (buffer ++ codes " " ++ obj) objs h
    ∙ ap (λ s. record { requested_log_level = level; buffer = b ∷ s })
        (append_assoc (buffer ++ b' ' ∷ []) obj (words objs)
          ∙ append_assoc buffer (b' ' ∷ []) (obj ++ words objs)))

prefix_text_filled :
    (time colour colour_end : Bytes) (tag : Option Bytes)
    → (b : ℕ) × (s : Bytes) × (prefix_text time colour colour_end tag ≡ b ∷ s)
prefix_text_filled time colour colour_end none = (b' ', [], refl)
prefix_text_filled time colour colour_end (some tag) =
    (b'[', time ++ codes "] " ++ colour ++ tag ++ colour_end ++ codes " ", refl)

filled :
    (opens : Bool) (settings : Settings) (level : ℤ) (b : ℕ) (s : Bytes) (objs : List Bytes)
    → int_less settings.verbosity level ≡ false
    → flush_text opens settings
        (put_all settings
          (record { requested_log_level = level; buffer = [] })
          ((b ∷ s) ∷ objs)).buffer
      ≡ destination opens settings ((b ∷ s) ++ words objs ++ 10 ∷ [])
unfolding put append
filled opens settings level b s objs h =
    let log : Log = record { requested_log_level = level; buffer = [] } in
    let log' : Log = record { requested_log_level = level; buffer = b ∷ s } in
    let first : put settings log (b ∷ s) ≡ log' = rw h refl in
    ap (λ (l : Log). flush_text opens settings l.buffer)
      (ap (λ (l : Log). put_all settings l objs) first ∙ put_all_heard settings level b s objs h)

-- A statement of the log writes nothing where its level is above the verbosity; otherwise it writes one
-- line, the prefix and the parts, each part behind a blank, to the standard output where that was
-- chosen, and to the log file where it can be opened.
pub statement_lem :
    (opens : Bool) (time : Bytes) (settings : Settings) (level : ℤ) (objs : List Bytes)
    → statement opens time settings level objs ≡ (
        if int_less settings.verbosity level
        then none
        else destination opens settings (prefix time settings level ++ words objs ++ 10 ∷ []))
unfolding statement flush prefix get_colour get_colour_end
statement_lem opens time settings level objs =
    let log : Log = record { requested_log_level = level; buffer = [] } in
    elim (Bool-cases (int_less settings.verbosity level)) [
      | inl h ↦
          ap (λ (l : Log). flush_text opens settings l.buffer)
            (put_all_muted settings level [] (prefix time settings level ∷ objs) h)
          ∙ rw h refl
      | inr h ↦
          let (b, s, e) =
            prefix_text_filled time (get_colour settings level) (get_colour_end settings)
              (level_tag level) in
          let e' : prefix time settings level ≡ b ∷ s = rw h e in
          ap (λ p. flush_text opens settings (put_all settings log (p ∷ objs)).buffer) e'
          ∙ filled opens settings level b s objs h
          ∙ rw (h, e) refl
    ]

-- The name of a level is read back as that level, but for `System` and the numbers that are no level,
-- which are read as `Error`.
get_verbosity_as_number-get_verbosity_as_string :
    (level : ℤ)
    → get_verbosity_as_number (get_verbosity_as_string level)
      ≡ (if int_less level error || int_less developer level then error else level)
unfolding get_verbosity_as_number get_verbosity_as_string
get_verbosity_as_number-get_verbosity_as_string (negsuc n) = refl
get_verbosity_as_number-get_verbosity_as_string (pos n) = ground arith
