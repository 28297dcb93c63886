-- ===== src/Log.antt =====
-- dap/Log.cpp and dap/Log.hpp: the log. The static members are `Settings`, an object is a `Log`; its
-- file pointer is null between any two calls and is left out. The text of the time, `ctime` without the
-- blanks around it, and whether `fopen` succeeds are arguments.
mod Levels
unfoldable pub use Levels.*
pub mod Statement
use wxdap.Base.{
  Bool, true, false, Option, none, some, List, [], ◌∷◌, ◌++◌, Bytes, codes, if◌then◌else◌,
}
use wxdap.Decimal.{ℤ}
use wxdap.Protocol.Structs.{int_eq}

pub record Settings : Type 0 where
  pub verbosity : ℤ
  pub logfile : Bytes
  pub use_stdout : Bool

pub record Log : Type 0 where
  pub requested_log_level : ℤ
  pub buffer : Bytes

-- What `Flush` writes, and where.
pub data Output : Type 0 where
  to_stdout : Bytes → Output
  to_file : Bytes → Bytes → Output

-- The colours, as the sequences that a terminal reads.
abbrev pub escape : Bytes → Bytes
escape s = 27 ∷ s

unfoldable pub get_colour : Settings → ℤ → Bytes
get_colour settings verbo =
    if settings.use_stdout
    then (if int_eq verbo info
        then escape (codes "[32m")
        else if int_eq verbo system
        then escape (codes "[96m")
        else if int_eq verbo error
        then escape (codes "[31m")
        else if int_eq verbo warning
        then escape (codes "[93m")
        else if int_eq verbo dbg
        then escape (codes "[96m")
        else escape (codes "[37m"))
    else []

unfoldable pub get_colour_end : Settings → Bytes
get_colour_end settings = if settings.use_stdout then escape (codes "[0m") else []

abbrev pub prefix_text : Bytes → Bytes → Bytes → Option Bytes → Bytes
prefix_text time colour colour_end none = codes " "
prefix_text time colour colour_end (some tag) =
    codes "[" ++ time ++ codes "] " ++ colour ++ tag ++ colour_end ++ codes " "

unfoldable pub prefix : Bytes → Settings → ℤ → Bytes
unfolding get_colour get_colour_end
prefix time settings verbosity =
    if int_less settings.verbosity verbosity
    then []
    else prefix_text time (get_colour settings verbosity) (get_colour_end settings)
        (level_tag verbosity)

-- The text in a buffer that may hold some already.
abbrev pub add_word : Bytes → Bytes → Bytes
add_word [] word = word
add_word (b ∷ buffer) word = (b ∷ buffer) ++ codes " " ++ word

-- `Append` of an element at a level; `operator<<` of a text is the same at the level of the object.
unfoldable pub append : Settings → Bytes → ℤ → Log → Log
append settings elem level log =
    if int_less settings.verbosity level
    then log
    else record log { buffer = add_word log.buffer elem }

unfoldable pub put : Settings → Log → Bytes → Log
unfolding append
put settings log obj = append settings obj log.requested_log_level log

abbrev pub listed : List Bytes → Bytes
listed [] = []
listed (s ∷ arr) = s ++ codes ", " ++ listed arr

abbrev pub remove_last : Bytes → Bytes
remove_last [] = []
remove_last (b ∷ []) = []
remove_last (b ∷ c ∷ s) = b ∷ remove_last (c ∷ s)

-- `Append` of a vector, whose level is not used.
unfoldable pub append_vector : Settings → List Bytes → ℤ → Log → Log
unfolding append
append_vector settings [] level log = log
append_vector settings (s ∷ arr) level log =
    append settings (remove_last (remove_last (codes "[" ++ listed (s ∷ arr))) ++ codes "]")
      log.requested_log_level log

unfoldable pub add_log_line : Bytes → Settings → Bytes → ℤ → Log → Log
unfolding prefix
add_log_line time settings [] verbosity log = log
add_log_line time settings (m ∷ msg) verbosity log =
    if int_less settings.verbosity verbosity then log else record log {
      buffer = log.buffer ++ prefix time settings verbosity ++ codes " " ++ (m ∷ msg) ++ 10 ∷ [];
    }

-- `Flush`, where `opens` tells whether the log file can be opened.
abbrev pub flush_text : Bool → Settings → Bytes → Option Output
flush_text opens settings [] = none
flush_text opens settings (b ∷ buffer) =
    let text = (b ∷ buffer) ++ 10 ∷ [] in
    if settings.use_stdout
    then some (to_stdout text)
    else if opens
    then some (to_file settings.logfile text)
    else none

unfoldable pub flush : Bool → Settings → Log → Option Output × Log
flush opens settings log = (flush_text opens settings log.buffer, record log { buffer = [] })

abbrev pub put_all : Settings → Log → List Bytes → Log
put_all settings log [] = log
put_all settings log (obj ∷ objs) = put_all settings (put settings log obj) objs

-- A statement `LOG_...() << obj << ...`, which `endl` or the destructor ends with `Flush`.
unfoldable pub statement : Bool → Bytes → Settings → ℤ → List Bytes → Option Output
unfolding flush put prefix
statement opens time settings level objs =
    let log : Log = record { requested_log_level = level; buffer = [] } in
    (flush opens settings (put_all settings log (prefix time settings level ∷ objs))).0

-- `SetVerbosity`, which logs the new level where it is above `Warning`.
unfoldable pub set_verbosity : Bool → Bytes → ℤ → Settings → Option Output × Settings
unfolding statement get_verbosity_as_string
set_verbosity opens time level settings =
    let output = statement opens time settings system (get_verbosity_as_string level ∷ [] ∷ []) in
    (if int_less warning level then output else none, record settings { verbosity = level })

unfoldable pub set_verbosity_text : Bool → Bytes → Bytes → Settings → Option Output × Settings
unfolding set_verbosity get_verbosity_as_number
set_verbosity_text opens time verbosity settings =
    set_verbosity opens time (get_verbosity_as_number verbosity) settings

unfoldable pub open_log : Bytes → ℤ → Settings → Settings
open_log fullpath verbosity settings = record {
  verbosity = verbosity;
  logfile = fullpath;
  use_stdout = false;
}

unfoldable pub open_stdout : ℤ → Settings → Settings
open_stdout verbosity settings = record { verbosity = verbosity; logfile = []; use_stdout = true }
