-- ===== src/Argv/RoundTrip.antt =====
-- The command line that `StdoutTransport::Execute` writes, read back by `BuildArgv`.
use wxdap.Base.{
  ℕ, ◌≡◌, ◌≢◌, ◌<◌, refl, ◌⊎◌, inl, inr, true, none, List, [], ◌∷◌, ◌++◌, arith, Bytes, append-nil,
  append_assoc, All, All-append, Lacks, map, ap, ap₂,
}
use wxdap.Argv.Ascii.{IsAscii, plain-IsAscii, plain-Lacks, map-to_char}
use wxdap.Text.{c_str, find_char, wrap_with_quotes}
use wxdap.Text.Chop.{find_char-Lacks, Lacks-find_char}
use wxdap.Text.Tokens.{c_str-Lacks}
use wxdap.Argv.{
  normal, dquote, run, step, push_nonempty, last_is, remove_last, unquote, build_argv,
  command_string,
}
use wxdap.Argv.Quoted.{
  scan_at, run-nil, run-cons, run-append, run_word, run_dquote, IsPlain, EndsPlain,
}

-- What `Execute` can hand over: plain text, that is not empty, and that does not end in a backslash
-- if it holds a space.
abbrev pub IsArg : Bytes → Type 0
IsArg s = (s ≢ []) × All IsPlain s × (Lacks b' ' s ⊎ EndsPlain s)

-- `WrapWithQuotes` leaves the text alone or puts quotes round it.
wrap_cases :
    (s : Bytes)
    → ((wrap_with_quotes s ≡ s) × (find_char b' ' s ≡ none))
      ⊎ ((wrap_with_quotes s ≡ b'"' ∷ s ++ b'"' ∷ []) × (find_char b' ' s ≢ none))
unfolding wrap_with_quotes
wrap_cases [] = unfold find_char in inl (refl, refl)
wrap_cases (c ∷ s) = ground arith

wrap-IsArg :
    (s : Bytes)
    → IsArg s
    → ((wrap_with_quotes s ≡ s) × Lacks b' ' s)
      ⊎ ((wrap_with_quotes s ≡ b'"' ∷ s ++ b'"' ∷ []) × EndsPlain s)
wrap-IsArg s (n, plain, h) = go (wrap_cases s) h
  where
    go :
        ((wrap_with_quotes s ≡ s) × (find_char b' ' s ≡ none))
          ⊎ ((wrap_with_quotes s ≡ b'"' ∷ s ++ b'"' ∷ []) × (find_char b' ' s ≢ none))
        → Lacks b' ' s ⊎ EndsPlain s
        → ((wrap_with_quotes s ≡ s) × Lacks b' ' s)
          ⊎ ((wrap_with_quotes s ≡ b'"' ∷ s ++ b'"' ∷ []) × EndsPlain s)
    go (inl (e, f)) _ = inl (e, Lacks-find_char b' ' s f)
    go (inr (e, f)) (inl l) = absurd (f (find_char-Lacks b' ' s l))
    go (inr (e, f)) (inr p) = inr (e, p)

last_is-append : (ch : ℕ) (s : Bytes) → last_is ch (s ++ ch ∷ []) ≡ true
unfolding last_is
last_is-append ch [] = ground arith
last_is-append ch (c ∷ []) = ground arith
last_is-append ch (c ∷ d ∷ s) = last_is-append ch (d ∷ s)

remove_last-append : (ch : ℕ) (s : Bytes) → remove_last (s ++ ch ∷ []) ≡ s
unfolding remove_last
remove_last-append ch [] = refl
remove_last-append ch (c ∷ []) = refl
remove_last-append ch (c ∷ d ∷ s) = ap (λ t. c ∷ t) (remove_last-append ch (d ∷ s))

unquote_word : (s : Bytes) → All IsPlain s → unquote s ≡ s
unfolding unquote
unquote_word [] h = refl
unquote_word (c ∷ []) h = refl
unquote_word (c ∷ d ∷ s) (hc, h) = ground arith

unquote_quoted : (c : ℕ) (s : Bytes) → unquote (b'"' ∷ c ∷ s ++ b'"' ∷ []) ≡ c ∷ s
unfolding unquote
unquote_quoted c s = rw (last_is-append b'"' (c ∷ s), remove_last-append b'"' (c ∷ s))

run_open :
    (args : List Bytes) → step (scan_at args normal []) b'"' ≡ scan_at args dquote (b'"' ∷ [])
unfolding step
run_open args = refl

run_close :
    (args : List Bytes) (cur : Bytes)
    → step (scan_at args dquote cur) b'"' ≡ scan_at args normal (cur ++ b'"' ∷ [])
unfolding step
run_close args cur = refl

-- A wrapped argument is collected with its quotes, and the scan is outside quotes again.
run_arg :
    (args : List Bytes) (s : Bytes)
    → IsArg s
    → run (scan_at args normal []) (wrap_with_quotes s) ≡ scan_at args normal (wrap_with_quotes s)
run_arg args s (n, plain, h) = elim (wrap-IsArg s (n, plain, h)) [
  | inl (e, l) ↦ rw e (run_word args [] s plain l)
  | inr (e, p) ↦ rw e (quoted p)
]
  where
    quoted :
        EndsPlain s
        → run (scan_at args normal []) (b'"' ∷ s ++ b'"' ∷ [])
          ≡ scan_at args normal (b'"' ∷ s ++ b'"' ∷ [])
    quoted p = rw (
      run-cons,
      run_open args,
      run-append,
      run_dquote args (b'"' ∷ []) s plain p,
      run-cons,
      run_close args,
      run-nil,
    )

wrap-ne-nil : (s : Bytes) → s ≢ [] → wrap_with_quotes s ≢ []
wrap-ne-nil s n = elim (wrap_cases s) [ inl (e, _) ↦ rw e n | inr (e, _) ↦ rw e (λ p. cc) ]

push_ne_nil : (args : List Bytes) (s : Bytes) → s ≢ [] → push_nonempty args s ≡ args ++ s ∷ []
push_ne_nil args [] n = absurd (n refl)
push_ne_nil args (c ∷ s) n = refl

run_space :
    (args : List Bytes) (cur : Bytes)
    → step (scan_at args normal cur) b' ' ≡ scan_at (push_nonempty args cur) normal []
unfolding step
run_space args cur = refl

run_command :
    (args cmds : List Bytes)
    → All IsArg cmds
    → run (scan_at args normal []) (command_string cmds)
      ≡ scan_at (args ++ map wrap_with_quotes cmds) normal []
unfolding command_string
run_command args [] h = rw (run-nil, append-nil)
run_command args (s ∷ cmds) (hs, h) = rw (
  run-append,
  run_arg args s hs,
  run-cons,
  run_space args,
  push_ne_nil args _ (wrap-ne-nil s hs.0),
  run_command (args ++ wrap_with_quotes s ∷ []) cmds h,
  append_assoc,
)

wrap-IsAscii : (s : Bytes) → All IsPlain s → All IsAscii (wrap_with_quotes s)
wrap-IsAscii s h = elim (wrap_cases s) [
  | inl (e, _) ↦ rw e (plain-IsAscii s h)
  | inr (e, _) ↦ rw e (omega arith, All-append IsAscii s _ (plain-IsAscii s h) (omega arith, tt))
]

command-IsAscii : (cmds : List Bytes) → All IsArg cmds → All IsAscii (command_string cmds)
unfolding command_string
command-IsAscii [] h = tt
command-IsAscii (s ∷ cmds) (hs, h) =
    All-append IsAscii (wrap_with_quotes s) _ (wrap-IsAscii s hs.1)
      (omega arith, command-IsAscii cmds h)

-- What `BuildArgv` makes of one token.
read_token : (s : Bytes) → IsArg s → unquote (c_str (wrap_with_quotes s)) ≡ s
read_token [] h = absurd (h.0 refl)
read_token (c ∷ s) (n, plain, h) = elim (wrap_cases (c ∷ s)) [
  | inl (e, _) ↦
      rw (e, c_str-Lacks (c ∷ s) (plain-Lacks (c ∷ s) plain)) (unquote_word (c ∷ s) plain)
  | inr (e, _) ↦ rw (e, c_str-Lacks (b'"' ∷ c ∷ s ++ b'"' ∷ []) quoted) (unquote_quoted c s)
]
  where
    quoted : Lacks 0 (b'"' ∷ c ∷ s ++ b'"' ∷ [])
    quoted = ((omega arith), All-append _ (c ∷ s) _ (plain-Lacks (c ∷ s) plain) ((omega arith), tt))

read_tokens :
    (cmds : List Bytes)
    → All IsArg cmds
    → map unquote (map c_str (map wrap_with_quotes cmds)) ≡ cmds
read_tokens [] h = refl
read_tokens (s ∷ cmds) (hs, h) = ap₂ (λ c cs. c ∷ cs) (read_token s hs) (read_tokens cmds h)

module _ (to_char : ℕ → ℕ) (ascii : (c : ℕ) → c < 128 → to_char c ≡ c) where
  -- The command that `Execute` writes is split into the arguments that it was given, if ASCII is
  -- converted to itself and each argument is ASCII with no quote, tab or NUL, not empty, and does
  -- not end in a backslash if it holds a space.
  pub build_argv-command_string :
      (command : List Bytes)
      → All IsArg command
      → build_argv to_char (command_string command) ≡ command
  unfolding build_argv
  build_argv-command_string command h =
      rw
        (
          map-to_char to_char ascii (command_string command) (command-IsAscii command h),
          run_command [] command h,
        )
        (read_tokens command h)
