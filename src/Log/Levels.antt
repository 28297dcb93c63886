-- ===== src/Log/Levels.antt =====
-- dap/Log.hpp and dap/Log.cpp: the levels of the log and their names.
use wxdap.Base.{Bool, true, false, Option, none, some, Bytes, codes, bytes_eq, ltb, if◌then◌else◌}
use wxdap.Decimal.{ℤ, pos, negsuc}
use wxdap.Protocol.Structs.{int_eq}

-- `eLogVerbosity`
abbrev pub system : ℤ
system = negsuc 0

abbrev pub error : ℤ
error = pos 0

abbrev pub warning : ℤ
warning = pos 1

abbrev pub info : ℤ
info = pos 2

abbrev pub dbg : ℤ
dbg = pos 3

abbrev pub developer : ℤ
developer = pos 4

abbrev pub int_less : ℤ → ℤ → Bool
int_less (pos m) (pos n) = ltb m n
int_less (pos m) (negsuc n) = false
int_less (negsuc m) (pos n) = true
int_less (negsuc m) (negsuc n) = ltb n m

unfoldable pub get_verbosity_as_number : Bytes → ℤ
get_verbosity_as_number verbosity =
    if bytes_eq verbosity (codes "Debug")
    then dbg
    else if bytes_eq verbosity (codes "Error")
    then error
    else if bytes_eq verbosity (codes "Warning")
    then warning
    else if bytes_eq verbosity (codes "System")
    then system
    else if bytes_eq verbosity (codes "Developer")
    then developer
    else if bytes_eq verbosity (codes "Info")
    then info
    else error

unfoldable pub get_verbosity_as_string : ℤ → Bytes
get_verbosity_as_string verbosity =
    if int_eq verbosity dbg
    then codes "Debug"
    else if int_eq verbosity error
    then codes "Error"
    else if int_eq verbosity warning
    then codes "Warning"
    else if int_eq verbosity developer
    then codes "Developer"
    else if int_eq verbosity info
    then codes "Info"
    else codes "Error"

-- The cases of the switch in `Prefix`.
abbrev pub level_tag : ℤ → Option Bytes
level_tag verbosity =
    if int_eq verbosity info
    then some (codes " [ INFO ]")
    else if int_eq verbosity system
    then some (codes " [ SYSTEM ]")
    else if int_eq verbosity error
    then some (codes " [ ERROR ]")
    else if int_eq verbosity warning
    then some (codes " [ WARNING ]")
    else if int_eq verbosity dbg
    then some (codes " [ DEBUG ]")
    else if int_eq verbosity developer
    then some (codes " [ TRACE ]")
    else none
