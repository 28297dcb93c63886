-- ===== src/Argv/Quoted.antt =====
-- How the loop of `BuildArgv` reads plain text, and text in double quotes.
use wxdap.Base.{
  ℕ, ◌≡◌, ◌≢◌, ◌<◌, refl, ◌⊎◌, inl, inr, List, [], ◌∷◌, ◌++◌, arith, Bytes, append-nil,
  append_assoc, All, Lacks,
}
use wxdap.Argv.{Scan, ArgvState, normal, dquote, run, step}

abbrev pub scan_at : List Bytes → ArgvState → Bytes → Scan
scan_at args state curstr = record {
  args = args;
  state = state;
  prev_state = normal;
  curstr = curstr;
}

pub run-nil : (a : Scan) → run a [] ≡ a
unfolding run
run-nil a = refl

pub run-cons : (a : Scan) (c : ℕ) (s : Bytes) → run a (c ∷ s) ≡ run (step a c) s
unfolding run
run-cons a c s = refl

pub run-append : (a : Scan) (s t : Bytes) → run a (s ++ t) ≡ run (run a s) t
unfolding run
run-append a [] t = refl
run-append a (c ∷ s) t = run-append (step a c) s t

-- An ASCII character that is no quote, no tab and no NUL.
abbrev pub IsPlain : ℕ → Type 0
IsPlain c = (c ≢ b'\'') × (c ≢ b'"') × (c ≢ b'`') × (c ≢ b'\t') × (c ≢ 0) × (c < 128)

-- The text does not end in a backslash.
abbrev pub EndsPlain : Bytes → Type 0
EndsPlain [] = Unit
EndsPlain (c ∷ []) = c ≢ b'\\'
EndsPlain (c ∷ d ∷ s) = EndsPlain (d ∷ s)

step_word :
    (args : List Bytes) (cur : Bytes) (c : ℕ)
    → IsPlain c
    → c ≢ b' '
    → step (scan_at args normal cur) c ≡ scan_at args normal (cur ++ c ∷ [])
unfolding step
step_word args cur c h n = ground arith

-- Outside quotes plain text without a space is collected, backslashes too.
pub run_word :
    (args : List Bytes) (cur s : Bytes)
    → All IsPlain s
    → Lacks b' ' s
    → run (scan_at args normal cur) s ≡ scan_at args normal (cur ++ s)
unfolding run
run_word args cur [] h n = rw append-nil
run_word args cur (c ∷ s) (hc, h) (nc, n) =
    rw (step_word args cur c hc nc, run_word args (cur ++ c ∷ []) s h n, append_assoc)

step_dquote :
    (args : List Bytes) (cur : Bytes) (c : ℕ)
    → IsPlain c
    → c ≢ b'\\'
    → step (scan_at args dquote cur) c ≡ scan_at args dquote (cur ++ c ∷ [])
unfolding step
step_dquote args cur c h n = ground arith

-- A backslash and the character behind it are both kept.
step_dquote_twice :
    (args : List Bytes) (cur : Bytes) (d : ℕ)
    → IsPlain d
    → step (step (scan_at args dquote cur) b'\\') d ≡ scan_at args dquote (cur ++ b'\\' ∷ d ∷ [])
unfolding step
step_dquote_twice args cur d h = ground arith

EndsPlain-tail : (d : ℕ) (s : Bytes) → EndsPlain (d ∷ s) → EndsPlain s
EndsPlain-tail d [] n = tt
EndsPlain-tail d (c ∷ s) n = n

backslash_cases : (c : ℕ) → (c ≡ b'\\') ⊎ (c ≢ b'\\')
backslash_cases c = ground arith

-- In double quotes plain text that does not end in a backslash is collected as it stands.
pub run_dquote :
    (args : List Bytes) (cur s : Bytes)
    → All IsPlain s
    → EndsPlain s
    → run (scan_at args dquote cur) s ≡ scan_at args dquote (cur ++ s)
unfolding run
run_dquote args cur [] h n = rw append-nil
run_dquote args cur (c ∷ []) (hc, h) n = step_dquote args cur c hc n
run_dquote args cur (c ∷ d ∷ s) (hc, (hd, h)) n = elim (backslash_cases c) [
  | inl e ↦ rw (
    e,
    step_dquote_twice args cur d hd,
    run_dquote args (cur ++ b'\\' ∷ d ∷ []) s h (EndsPlain-tail d s n),
    append_assoc,
  )
  | inr m ↦
      rw (
        step_dquote args cur c hc m,
        run_dquote args (cur ++ c ∷ []) (d ∷ s) (hd, h) n,
        append_assoc,
      )
]
