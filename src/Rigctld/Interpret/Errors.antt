-- ===== src/Rigctld/Interpret/Errors.antt =====
-- Which lines make `interpret_command` read past the end of the pieces of a command.
use cwsd.Shared.{
  ℕ, ◌≤◌, ◌≡◌, ◌↔◌, sym, subst, true, List, [], ◌∷◌, length, drop, get_or, ltb, codes,
  if◌then◌else◌, if_either, Option-cases, inl, inr, arith,
}
use cwsd.Strings.{c_string}
use cwsd.StringUtil.{starts_with, split_string, trim, white_space}
use cwsd.StringUtil.Split.{starts_with_lem}
use cwsd.Rigctld.Hamlib.{Hamlib, Answers, RigCall}
use cwsd.Rigctld.Interpret.Cases.{with_number_case, interpret_trimmed_cases}
use cwsd.Rigctld.Interpret.{
  Outcome, answered, quits, throws, undefined, change_mode, change_split, change_level, level_value,
  interpret_setter, interpret_trimmed, interpret_command,
}

module _ (h : Hamlib) where
  -- "M " with fewer than two words behind it.
  abbrev pub LacksWidth : List ℕ → Type 0
  LacksWidth cmd =
      (starts_with cmd (codes "M ") ≡ true) × (length (split_string cmd (codes " ")) ≤ 2)

  -- An outcome that is undefined only for such a command.
  data Within (cmd : List ℕ) : Outcome h → Type 0 where
    by_answer : {calls : List (RigCall h)} {rs : List (List ℕ)} → Within cmd (answered calls rs)
    by_quit : Within cmd quits
    by_throw : Within cmd throws
    by_lack : LacksWidth cmd → Within cmd undefined

  change_level-Within :
      (cmd : List ℕ) (model : ℕ) (a : Answers h) (pieces : List (List ℕ))
      → Within cmd (change_level h model a pieces)
  unfolding change_level
  change_level-Within cmd model a pieces =
      elim (Option-cases (
        level_value h
          (h.parse_level (if ltb 1 (length pieces) then c_string (get_or pieces 1 []) else []))
          pieces)) [
            | inl missing ↦ rw (missing, change_level) by_throw
            | inr (v, found) ↦ rw (found, change_level) by_answer
          ]

  change_mode-Within :
      (cmd : List ℕ)
      → starts_with cmd (codes "M ") ≡ true
      → Within cmd (change_mode h (split_string cmd (codes " ")))
  unfolding change_mode
  change_mode-Within cmd m =
      if_either (Within cmd) (ltb 2 (length (split_string cmd (codes " "))))
        (λ e. with_number_case h (Within cmd) _ _ by_throw (λ n. by_answer))
        (λ e. by_lack (m, ground arith))

  interpret_trimmed-Within :
      (cmd : List ℕ) (model : ℕ) (a : Answers h) → Within cmd (interpret_trimmed h model a cmd)
  unfolding change_split
  interpret_trimmed-Within cmd model a =
      interpret_trimmed_cases h (Within cmd) cmd model a (record {
        by_says = λ rs. by_answer;
        by_quit = by_quit;
        by_throw = by_throw;
        by_powerstat = λ n. by_answer;
        by_split = λ pieces. by_answer;
        by_ptt = λ n. by_answer;
        by_vfo = λ vfo. by_answer;
        by_mode = change_mode-Within cmd;
        by_freq = λ x. by_answer;
        by_level = change_level-Within cmd model a;
      })

  Within-LacksWidth : {cmd : List ℕ} {o : Outcome h} → Within cmd o → o ≡ undefined → LacksWidth cmd
  Within-LacksWidth by_answer e = cc
  Within-LacksWidth by_quit e = cc
  Within-LacksWidth by_throw e = cc
  Within-LacksWidth (by_lack l) e = l

  interpret_lacking :
      (rest : List ℕ) (model : ℕ) (a : Answers h)
      → length (split_string (b'M' ∷ b' ' ∷ rest) (codes " ")) ≤ 2
      → interpret_trimmed h model a (b'M' ∷ b' ' ∷ rest) ≡ undefined
  unfolding interpret_trimmed interpret_setter change_mode starts_with
  interpret_lacking rest model a few = ground arith

  LacksWidth-undefined :
      (cmd : List ℕ) (model : ℕ) (a : Answers h)
      → LacksWidth cmd
      → interpret_trimmed h model a cmd ≡ undefined
  LacksWidth-undefined cmd model a l =
      subst
        (λ c. length (split_string c (codes " ")) ≤ 2 → interpret_trimmed h model a c ≡ undefined)
        (sym (starts_with_lem cmd (codes "M ") l.0)) (interpret_lacking (drop 2 cmd) model a) l.1

  -- `interpret_command` reads behind the last piece of a line exactly when the line, trimmed, is the
  -- command "M " with fewer than two words behind it.
  pub interpret_command_undefined :
      (line : List ℕ) (model : ℕ) (a : Answers h)
      → (interpret_command h model a line ≡ undefined) ↔ LacksWidth (trim line white_space)
  unfolding interpret_command
  interpret_command_undefined line model a =
      let cmd = trim line white_space in
      (Within-LacksWidth (interpret_trimmed-Within cmd model a), LacksWidth-undefined cmd model a)
