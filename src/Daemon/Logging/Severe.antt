-- ===== src/Daemon/Logging/Severe.antt =====
-- Severe messages are always logged.
use cwsd.Shared.{ℕ, ◌≤◌, ◌≡◌, true, List, All, codes, same_text, if_both, arith}
use mathlib.Core.List.{map}
use cwsd.Strings.{to_lower}
use cwsd.Daemon.Logging.{
  Level, trace, debug, verbose, info, warning, error, fatal, to_logging_level, severity_of, Setting,
  enable, configure_logging,
}

-- A level is enabled that is at least an error, or at least as severe as the level that is set.
abbrev pub Shows : Level → Setting → Type 0
Shows level s =
    (severity_of error ≤ severity_of s.0 → s.1 ≡ true)
    × (severity_of level ≤ severity_of s.0 → s.1 ≡ true)

level_at_most : (text : List ℕ) → severity_of (to_logging_level text) ≤ severity_of error
unfolding to_logging_level
level_at_most text =
    let lower = map to_lower text in
    if_both (λ l. severity_of l ≤ severity_of error) (same_text lower (codes "info")) (omega arith)
      (if_both (λ l. severity_of l ≤ severity_of error) (same_text lower (codes "debug"))
        (omega arith)
        (if_both (λ l. severity_of l ≤ severity_of error) (same_text lower (codes "error"))
          (omega arith)
          (if_both (λ l. severity_of l ≤ severity_of error) (same_text lower (codes "warning"))
            (omega arith) (omega arith))))

shown : (level l : Level) → severity_of level ≤ severity_of error → Shows level (enable level l)
shown level l low = (λ severe. ground arith, λ severe. ground arith)

-- Whatever text the configuration has for the level, every level that `configure_logging` sets is
-- enabled if it is an error or worse, or as severe as the configured level.
pub configure_logging-Shows :
    (text : List ℕ)
    → All (Shows (to_logging_level text)) (configure_logging (to_logging_level text))
unfolding configure_logging
configure_logging-Shows text =
    let level = to_logging_level text in
    let low = level_at_most text in
    (
      shown level trace low,
      (
        shown level debug low,
        (
          shown level verbose low,
          (
            shown level info low,
            (shown level warning low, (shown level error low, (shown level fatal low, tt))),
          ),
        ),
      ),
    )
