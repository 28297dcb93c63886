-- ===== src/Argv/Backslash.antt =====
-- An argument with a space that ends in a backslash: `WrapWithQuotes` does not escape it, and
-- `BuildArgv` takes the closing quote for an escaped one.
use wxdap.Base.{
  ℕ, ◌≡◌, ◌≢◌, ◌<◌, refl, false, none, [], ◌∷◌, ◌++◌, arith, Bytes, append_assoc, All, All-append,
  Lacks, map, ap,
}
use wxdap.Text.{c_str, find_char, wrap_with_quotes}
use wxdap.Text.Tokens.{c_str-Lacks}
use wxdap.Argv.{
  push_nonempty, normal, dquote, run, step, last_is, unquote, build_argv, command_string,
}
use wxdap.Argv.Quoted.{scan_at, run-nil, run-cons, run-append, run_dquote, IsPlain, EndsPlain}
use wxdap.Argv.Ascii.{IsAscii, plain-IsAscii, plain-Lacks, map-to_char}

abbrev Holds : Bytes → Type 0
Holds s = find_char b' ' s ≢ none

find_char-append_left : (s t : Bytes) → Holds s → Holds (s ++ t)
unfolding find_char
find_char-append_left [] t h = absurd (h refl)
find_char-append_left (c ∷ s) t h = ground (arith, find_char-append_left s t)

wrap_lem : (s : Bytes) → Holds s → wrap_with_quotes s ≡ b'"' ∷ s ++ b'"' ∷ []
unfolding wrap_with_quotes
wrap_lem [] h = absurd (h (unfold find_char in refl))
wrap_lem (c ∷ s) h = ground arith

escaped_quote :
    (cur : Bytes)
    → step (step (scan_at [] dquote cur) b'\\') b'"' ≡ scan_at [] dquote (cur ++ b'"' ∷ [])
unfolding step
escaped_quote cur = refl

space_inside :
    (cur : Bytes) → step (scan_at [] dquote cur) b' ' ≡ scan_at [] dquote (cur ++ b' ' ∷ [])
unfolding step
space_inside cur = refl

quote_opens : step (scan_at [] normal []) b'"' ≡ scan_at [] dquote (b'"' ∷ [])
unfolding step
quote_opens = refl

-- The text that is collected: the quote is not closed, and the blank behind it is taken too.
left_open : Bytes → Bytes
left_open s = b'"' ∷ s ++ b'"' ∷ b' ' ∷ []

run-left_open :
    (s : Bytes)
    → All IsPlain s
    → EndsPlain s
    → Holds s
    → run (scan_at [] normal []) (command_string ((s ++ b'\\' ∷ []) ∷ []))
      ≡ scan_at [] dquote (left_open s)
unfolding left_open command_string
run-left_open s plain ends holds = rw (
  wrap_lem (s ++ b'\\' ∷ []) (find_char-append_left s _ holds),
  append_assoc,
  append_assoc,
  run-cons,
  quote_opens,
  run-append,
  run_dquote [] (b'"' ∷ []) s plain ends,
  run-cons,
  run-cons,
  escaped_quote,
  run-cons,
  space_inside,
  run-nil,
  append_assoc,
)

last_blank : (s : Bytes) → last_is b'"' (s ++ b'"' ∷ b' ' ∷ []) ≡ false
unfolding last_is
last_blank [] = refl
last_blank (c ∷ []) = refl
last_blank (c ∷ d ∷ s) = last_blank (d ∷ s)

unquote-left_open : (s : Bytes) → s ≢ [] → unquote (left_open s) ≡ left_open s
unfolding left_open unquote
unquote-left_open [] n = absurd (n refl)
unquote-left_open (c ∷ s) n = rw (last_blank (c ∷ s))

module _ (P : ℕ → Type 0) where
  All-command :
      (s : Bytes)
      → Holds s
      → P b'"'
      → P b'\\'
      → P b' '
      → All P s
      → All P (command_string ((s ++ b'\\' ∷ []) ∷ [])) × All P (left_open s)
  unfolding command_string left_open
  All-command s holds quote backslash blank h =
      rw (wrap_lem (s ++ b'\\' ∷ []) (find_char-append_left s _ holds), append_assoc, append_assoc)
        (
          (quote, All-append P s _ h (backslash, (quote, (blank, tt)))),
          (quote, All-append P s _ h (quote, (blank, tt))),
        )

read_left_open :
    (s : Bytes)
    → All IsPlain s
    → s ≢ []
    → Holds s
    → map unquote (map c_str (push_nonempty [] (left_open s))) ≡ (b'"' ∷ s ++ b'"' ∷ b' ' ∷ []) ∷ []
unfolding left_open
read_left_open s plain n holds = ap (λ t. t ∷ []) read
  where
    no_nul : Lacks 0 (left_open s)
    no_nul =
        (All-command (λ c. c ≢ 0) s holds (omega arith) (omega arith) (omega arith)
          (plain-Lacks s plain)).1

    read : unquote (c_str (left_open s)) ≡ left_open s
    read = rw (c_str-Lacks (left_open s) no_nul) (unquote-left_open s n)

Holds-ne-nil : (s : Bytes) → Holds s → s ≢ []
Holds-ne-nil [] h = absurd (h (unfold find_char in refl))
Holds-ne-nil (c ∷ s) h = λ e. cc

module _ (to_char : ℕ → ℕ) (ascii : (c : ℕ) → c < 128 → to_char c ≡ c) where
  -- An argument of ASCII without quotes, tab or NUL that holds a space and ends in one backslash
  -- comes out with a quote in front, and a quote and a blank in place of the backslash.
  pub build_argv_trailing_backslash :
      (s : Bytes)
      → All IsPlain s
      → EndsPlain s
      → Holds s
      → build_argv to_char (command_string ((s ++ b'\\' ∷ []) ∷ []))
        ≡ (b'"' ∷ s ++ b'"' ∷ b' ' ∷ []) ∷ []
  unfolding build_argv
  build_argv_trailing_backslash s plain ends holds =
      rw
        (
          map-to_char to_char ascii _
              (All-command IsAscii s holds (omega arith) (omega arith) (omega arith)
                (plain-IsAscii s plain)).0,
          run-left_open s plain ends holds,
        )
        (read_left_open s plain (Holds-ne-nil s holds) holds)
