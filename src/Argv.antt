-- ===== src/Argv.antt =====
-- dap/StringUtils.cpp, `BuildArgv`, and the command line that dap/Client.cpp,
-- `StdoutTransport::Execute`, hands it through `ExecuteProcess` of dap/linux.cpp.
-- A `wxString` is its list of code points; the conversion of one to `char`, which wxWidgets makes
-- in the current locale, is the parameter `to_char`.
pub mod Quoted
pub mod Ascii
pub mod RoundTrip
pub mod Backslash
use wxdap.Base.{
  ℕ, Bool, true, false, ◌&&◌, ◌||◌, List, [], ◌∷◌, ◌++◌, map, Bytes, codes, ◌==◌, if◌then◌else◌,
  Option, none, some,
}
use wxdap.Text.{c_str, wrap_with_quotes}

pub data ArgvState : Type 0 where
  normal dquote squote escape backtick : ArgvState

-- The variables of the loop.
pub record Scan : Type 0 where
  pub args : List Bytes
  pub state : ArgvState
  pub prev_state : ArgvState
  pub curstr : Bytes

-- PUSH_CURTOKEN
abbrev pub push_nonempty : List Bytes → Bytes → List Bytes
push_nonempty args [] = args
push_nonempty args (c ∷ s) = args ++ (c ∷ s) ∷ []

abbrev pub push_curtoken : Scan → Scan
push_curtoken a = record a { args = push_nonempty a.args a.curstr; curstr = [] }

-- CHANGE_STATE
abbrev pub change_state : ArgvState → Scan → Scan
change_state new_state a = record a { state = new_state; prev_state = a.state }

-- RESTORE_STATE
abbrev pub restore_state : Scan → Scan
restore_state a = record a { state = a.prev_state; prev_state = normal }

-- `curstr << s`
abbrev pub append : Bytes → Scan → Scan
append s a = record a { curstr = a.curstr ++ s }

unfoldable pub step_normal : Scan → ℕ → Scan
step_normal a ch =
    if (ch == b' ') || (ch == b'\t')
    then push_curtoken a
    else if ch == b'\''
    then append (ch ∷ []) (change_state squote a)
    else if ch == b'"'
    then append (ch ∷ []) (change_state dquote a)
    else if ch == b'`'
    then append (ch ∷ []) (change_state backtick a)
    else append (ch ∷ []) a

-- In a quote that ends at `quote`.
unfoldable pub step_quoted : ℕ → Scan → ℕ → Scan
step_quoted quote a ch =
    if ch == b'\\'
    then change_state escape a
    else if ch == quote
    then restore_state (append (ch ∷ []) a)
    else append (ch ∷ []) a

-- Behind a backslash in a quote that ends at `quote`.
unfoldable pub step_escaped : ℕ → Scan → ℕ → Scan
step_escaped quote a ch =
    if ch == quote
    then restore_state (append (quote ∷ []) a)
    else restore_state (append (b'\\' ∷ ch ∷ []) a)

abbrev pub escape_quote : ArgvState → ℕ
escape_quote dquote = b'"'
escape_quote backtick = b'`'
escape_quote _ = b'\''

unfoldable pub step_in : ArgvState → Scan → ℕ → Scan
unfolding step_normal step_quoted step_escaped
step_in normal a ch = step_normal a ch
step_in escape a ch = step_escaped (escape_quote a.prev_state) a ch
step_in dquote a ch = step_quoted b'"' a ch
step_in squote a ch = step_quoted b'\'' a ch
step_in backtick a ch = step_quoted b'`' a ch

unfoldable pub step : Scan → ℕ → Scan
unfolding step_in
step a ch = step_in a.state a ch

unfoldable pub run : Scan → Bytes → Scan
run a [] = a
run a (ch ∷ s) = run (step a ch) s

abbrev pub start : Scan
start = record { args = []; state = normal; prev_state = normal; curstr = [] }

-- `s.Last()` and `s.RemoveLast()` of a string that is not empty.
unfoldable pub last_is : ℕ → Bytes → Bool
last_is ch [] = false
last_is ch (c ∷ []) = c == ch
last_is ch (c ∷ d ∷ s) = last_is ch (d ∷ s)

unfoldable pub remove_last : Bytes → Bytes
remove_last [] = []
remove_last (c ∷ []) = []
remove_last (c ∷ d ∷ s) = c ∷ remove_last (d ∷ s)

-- A string of two characters or more loses the double quotes round it.
unfoldable pub unquote : Bytes → Bytes
unfolding last_is remove_last
unquote [] = []
unquote (c ∷ []) = c ∷ []
unquote (c ∷ d ∷ s) = if (c == b'"') && last_is b'"' (d ∷ s) then remove_last (d ∷ s) else c ∷ d ∷ s

-- `BuildArgv(str, argc)`, then `BuildArgv(str)`; `strdup` copies up to the first NUL.
unfoldable pub build_argv : (ℕ → ℕ) → Bytes → List Bytes
unfolding run step unquote
build_argv to_char str =
    let a = run start (map to_char str) in map unquote (map c_str (push_nonempty a.args a.curstr))

-- `StdoutTransport::Execute`: the command string.
unfoldable pub command_string : List Bytes → Bytes
unfolding wrap_with_quotes
command_string [] = []
command_string (cmd ∷ command) = wrap_with_quotes cmd ++ (b' ' ∷ command_string command)
