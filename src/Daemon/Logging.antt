-- ===== src/Daemon/Logging.antt =====
-- main.cpp: which messages are logged, `to_logging_level`, `severity_of` and `configure_logging`.
pub mod Severe
use cwsd.Shared.{ℕ, Bool, true, false, leb, List, [], ◌∷◌, codes, same_text, if◌then◌else◌}
use mathlib.Core.List.{map}
use cwsd.Strings.{to_lower}

-- `el::Level`; `other` stands for the values that the program does not name.
pub data Level : Type 0 where
  trace debug verbose info warning error fatal other : Level

unfoldable pub to_logging_level : List ℕ → Level
unfolding to_lower
to_logging_level level_as_str =
    let lower = map to_lower level_as_str in
    if same_text lower (codes "info")
    then info
    else if same_text lower (codes "debug")
    then debug
    else if same_text lower (codes "error")
    then error
    else if same_text lower (codes "warning")
    then warning
    else info

abbrev pub severity_of : Level → ℕ
severity_of trace = 0
severity_of debug = 1
severity_of verbose = 1
severity_of info = 2
severity_of warning = 3
severity_of error = 4
severity_of fatal = 5
severity_of other = 2

-- A level, and whether it is enabled.
abbrev pub Setting : Type 0
Setting = Level × Bool

abbrev pub enable : Level → Level → Setting
enable level l = (l, leb (severity_of level) (severity_of l))

-- The levels that `configure_logging` sets.
unfoldable pub configure_logging : Level → List Setting
configure_logging level =
    enable level trace
    ∷ enable level debug
    ∷ enable level verbose
    ∷ enable level info
    ∷ enable level warning
    ∷ enable level error
    ∷ enable level fatal
    ∷ []
