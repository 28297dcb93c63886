-- ===== src/Examples/Log.antt =====
-- A warning in a log file.
use wxdap.Base.{◌≡◌, true, false, none, List, [], ◌∷◌, ◌++◌, Bytes, codes, if◌then◌else◌}
use wxdap.Log.{Settings, int_less, warning, info, prefix, statement}
use wxdap.Log.Statement.{statement_lem, destination, words}

abbrev settings : Settings
settings = record { verbosity = info; logfile = codes "dap.log"; use_stdout = false }

abbrev noon : Bytes
noon = codes "Mon Jan 2 12:00:00 2023"

abbrev parts : List Bytes
parts = codes "slow" ∷ codes "reply" ∷ []

statement_lem_example : statement true noon settings warning parts ≡ (
    if int_less settings.verbosity warning
    then none
    else destination true settings (prefix noon settings warning ++ words parts ++ 10 ∷ []))
statement_lem_example = statement_lem true noon settings warning parts
