-- ===== src/Rigctld/Interpret/Cases.antt =====
-- The commands one by one: what holds of the outcome of each holds of `interpret_trimmed`.
use cwsd.Shared.{
  ℕ, ◌≡◌, true, ◌||◌, Option, none, some, List, [], ◌∷◌, codes, same_text, drop, if_both, if_either,
}
use cwsd.Strings.{ℤ, c_string, stoi}
use cwsd.StringUtil.{starts_with, split_string}
use cwsd.Rigctld.Hamlib.{Hamlib, Answers, RigCall, set_powerstat, set_ptt, set_vfo, set_freq}
use cwsd.Rigctld.Names.{vfo_from_string}
use cwsd.Rigctld.Interpret.{
  Outcome, answered, quits, throws, with_number, accepted, change_mode, change_split, change_level,
  answer_level, interpret_setter, interpret_trimmed,
}

module _ (h : Hamlib) (P : Outcome h → Type 0) where
  pub with_number_case :
      {A : Type 0} (call : A → RigCall h) (n : Option A)
      → P throws
      → ((x : A) → P (answered (call x ∷ []) (accepted ∷ [])))
      → P (with_number h call n)
  with_number_case call none t p = t
  with_number_case call (some x) t p = p x

  -- `P` holds of what each command does.
  pub record Covers (cmd : List ℕ) (model : ℕ) (a : Answers h) : Type 0 where
    pub by_says : (rs : List (List ℕ)) → P (answered [] rs)
    pub by_quit : P quits
    pub by_throw : P throws
    pub by_powerstat : (n : ℤ) → P (answered (set_powerstat n ∷ []) (accepted ∷ []))
    pub by_split : (pieces : List (List ℕ)) → P (change_split h pieces)
    pub by_ptt : (n : ℤ) → P (answered (set_ptt n ∷ []) (accepted ∷ []))
    pub by_vfo : (vfo : ℕ) → P (answered (set_vfo vfo ∷ []) (accepted ∷ []))
    pub by_mode :
        starts_with cmd (codes "M ") ≡ true → P (change_mode h (split_string cmd (codes " ")))
    pub by_freq : (x : h.Float) → P (answered (set_freq x ∷ []) (accepted ∷ []))
    pub by_level : (pieces : List (List ℕ)) → P (change_level h model a pieces)

  module _ (cmd : List ℕ) (model : ℕ) (a : Answers h) (c : Covers cmd model a) where
    interpret_setter_cases : P (interpret_setter h model a cmd)
    unfolding interpret_setter
    interpret_setter_cases =
        if_both P (starts_with cmd (codes "\\set_powerstat "))
          (with_number_case set_powerstat (stoi (c_string (drop 15 cmd))) c.by_throw c.by_powerstat)
          (if_both P (starts_with cmd (codes "S ")) (c.by_split (split_string cmd (codes " "))) (
            if_both P (starts_with cmd (codes "T "))
              (with_number_case set_ptt (stoi (c_string (drop 2 cmd))) c.by_throw c.by_ptt)
              (if_both P (starts_with cmd (codes "V "))
                (c.by_vfo (vfo_from_string h (c_string (drop 2 cmd))))
                (if_either P (starts_with cmd (codes "M ")) c.by_mode (λ no_mode.
                  if_both P (starts_with cmd (codes "F "))
                    (with_number_case set_freq (h.parse_float (c_string (drop 2 cmd))) c.by_throw
                      c.by_freq)
                    (if_both P (starts_with cmd (codes "l "))
                      (c.by_says (answer_level h a (c_string (drop 2 cmd)) ∷ []))
                      (if_both P (starts_with cmd (codes "L "))
                        (c.by_level (split_string cmd (codes " "))) (c.by_says []))))))))

    pub interpret_trimmed_cases : P (interpret_trimmed h model a cmd)
    unfolding interpret_trimmed
    interpret_trimmed_cases = if_both P (same_text cmd (codes "\\get_powerstat")) (c.by_says _) (
        if_both P (same_text cmd (codes "\\chk_vfo")) (c.by_says _) (
          if_both P (same_text cmd (codes "\\get_lock_mode")) (c.by_says _) (
            if_both P (same_text cmd (codes "\\dump_state")) (c.by_says _) (
              if_both P (same_text cmd (codes "f")) (c.by_says _) (
                if_both P (same_text cmd (codes "s")) (c.by_says _) (
                  if_both P (same_text cmd (codes "t")) (c.by_says _) (
                    if_both P (same_text cmd (codes "m")) (c.by_says _) (
                      if_both P (same_text cmd (codes "q") || same_text cmd (codes "Q")) c.by_quit (
                        if_both P (same_text cmd (codes "j")) (c.by_says _) (
                          if_both P (same_text cmd (codes "v")) (c.by_says _)
                            interpret_setter_cases))))))))))
