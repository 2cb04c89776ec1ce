-- ===== src/Rigctld/Interpret/Agc.antt =====
-- The AGC of an IC-7300 is never switched off.
use cwsd.Shared.{
  ℕ, ◌≡◌, ◌≢◌, sym, subst, ap, true, ◌&&◌, List, [], length, get_or, ltb, codes, if◌then◌else◌,
  if_both, if_either, Option-cases, inl, inr, All, arith, ◌==◌,
}
use cwsd.Strings.{c_string, ℤ, pos, negsuc}
use cwsd.StringUtil.{split_string, trim, white_space}
use cwsd.Rigctld.Hamlib.{
  Hamlib, Answers, Value, float, int, RigCall, set_powerstat, set_split, set_ptt, set_vfo, set_mode,
  set_freq, set_level,
}
use cwsd.Rigctld.Interpret.Cases.{with_number_case, interpret_trimmed_cases}
use cwsd.Rigctld.Interpret.{
  Outcome, answered, quits, throws, undefined, same_ℤ, change_mode, change_split, adapt_agc,
  change_level, level_value, interpret_trimmed, interpret_command,
}

same_ℤ_refl : (n : ℤ) → same_ℤ n n ≡ true
same_ℤ_refl (pos n) = ground arith
same_ℤ_refl (negsuc n) = ground arith

module _ (h : Hamlib) where
  -- The call does not set the AGC off.
  abbrev pub LeavesAgc : RigCall h → Type 0
  LeavesAgc (set_level level (int n)) = level ≡ h.level_agc → n ≢ h.agc_off
  LeavesAgc (set_level level (float x)) = Unit
  LeavesAgc (set_powerstat n) = Unit
  LeavesAgc (set_split split vfo) = Unit
  LeavesAgc (set_ptt n) = Unit
  LeavesAgc (set_vfo vfo) = Unit
  LeavesAgc (set_mode mode width) = Unit
  LeavesAgc (set_freq freq) = Unit

  abbrev calls_of : Outcome h → List (RigCall h)
  calls_of (answered calls rs) = calls
  calls_of quits = []
  calls_of throws = []
  calls_of undefined = []

  data AllLeave : Outcome h → Type 0 where
    by_answer :
        {calls : List (RigCall h)} {rs : List (List ℕ)}
        → All LeavesAgc calls
        → AllLeave (answered calls rs)
    by_quit : AllLeave quits
    by_throw : AllLeave throws
    by_lack : AllLeave undefined

  module _ (differ : h.agc_fast ≢ h.agc_off) where
    adapt_agc-LeavesAgc :
        (level : ℕ) (v : Value h) → LeavesAgc (set_level level (adapt_agc h h.model_ic7300 level v))
    unfolding adapt_agc
    adapt_agc-LeavesAgc level (float x) = tt
    adapt_agc-LeavesAgc level (int n) =
        if_either (λ v. LeavesAgc (set_level level v))
          (level == h.level_agc && same_ℤ n h.agc_off && h.model_ic7300 == h.model_ic7300)
          (λ e is_agc. differ)
          (λ e is_agc off.
            ground
              (arith, subst (λ m. same_ℤ m h.agc_off ≡ true) (sym off) (same_ℤ_refl h.agc_off)))

    change_level-AllLeave :
        (a : Answers h) (pieces : List (List ℕ)) → AllLeave (change_level h h.model_ic7300 a pieces)
    unfolding change_level
    change_level-AllLeave a pieces = elim (Option-cases (level_value h level pieces)) [
      | inl missing ↦ rw (missing, change_level) by_throw
      | inr (v, found) ↦ rw (found, change_level) (by_answer (adapt_agc-LeavesAgc level v, tt))
    ]
      where
        level : ℕ
        level = h.parse_level (if ltb 1 (length pieces) then c_string (get_or pieces 1 []) else [])

    change_mode-AllLeave : (pieces : List (List ℕ)) → AllLeave (change_mode h pieces)
    unfolding change_mode
    change_mode-AllLeave pieces =
        if_both AllLeave (ltb 2 (length pieces))
          (with_number_case h AllLeave _ _ by_throw (λ n. by_answer (tt, tt))) by_lack

    interpret_trimmed-AllLeave :
        (cmd : List ℕ) (a : Answers h) → AllLeave (interpret_trimmed h h.model_ic7300 a cmd)
    unfolding change_split
    interpret_trimmed-AllLeave cmd a =
        interpret_trimmed_cases h AllLeave cmd h.model_ic7300 a (record {
          by_says = λ rs. by_answer tt;
          by_quit = by_quit;
          by_throw = by_throw;
          by_powerstat = λ n. by_answer (tt, tt);
          by_split = λ pieces. by_answer (tt, tt);
          by_ptt = λ n. by_answer (tt, tt);
          by_vfo = λ vfo. by_answer (tt, tt);
          by_mode = λ m. change_mode-AllLeave (split_string cmd (codes " "));
          by_freq = λ x. by_answer (tt, tt);
          by_level = change_level-AllLeave a;
        })

    AllLeave-calls :
        {o : Outcome h} {calls : List (RigCall h)} {rs : List (List ℕ)}
        → AllLeave o
        → o ≡ answered calls rs
        → All LeavesAgc calls
    AllLeave-calls (by_answer l) e = subst (All LeavesAgc) (ap calls_of e) l
    AllLeave-calls by_quit e = cc
    AllLeave-calls by_throw e = cc
    AllLeave-calls by_lack e = cc

    -- On an IC-7300 no line makes a call that sets the level AGC to off, if hamlib's values for AGC
    -- off and fast differ.
    pub interpret_command_agc :
        (line : List ℕ) (a : Answers h) {calls : List (RigCall h)} {rs : List (List ℕ)}
        → interpret_command h h.model_ic7300 a line ≡ answered calls rs
        → All LeavesAgc calls
    unfolding interpret_command
    interpret_command_agc line a e =
        AllLeave-calls (interpret_trimmed-AllLeave (trim line white_space) a) e
