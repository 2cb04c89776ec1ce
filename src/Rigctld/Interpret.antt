-- ===== src/Rigctld/Interpret.antt =====
-- src/rigctld_server.cpp, `interpret_command`: a line of a client, as answers to it and calls of the
-- rig. `rig_model` is a member of the server.
pub mod Cases
pub mod Errors
pub mod Agc
use cwsd.Shared.{
  ℕ, ◌+◌, ◌%◌, ◌^◌, Bool, true, false, not, ◌&&◌, ◌||◌, Option, none, some, List, [], ◌∷◌, ◌++◌,
  length, get_or, drop, ltb, ◌==◌, codes, same_text, if◌then◌else◌,
}
use cwsd.Strings.{ℤ, pos, negsuc, c_string, stoi, print_ℤ}
use cwsd.StringUtil.{starts_with, split_string, trim, white_space}
use cwsd.Rigctld.Hamlib.{
  Hamlib, Value, float, int, Answers, RigCall, set_powerstat, set_split, set_ptt, set_vfo, set_mode,
  set_freq, set_level,
}
use cwsd.Rigctld.Dump.{dump_state}
use cwsd.Rigctld.Names.{
  vfo_to_string, vfo_from_string, mode_to_string, mode_from_string, split_to_string,
}

-- How a command ends: with calls of the rig and responses to the client, as the command to quit, by
-- an exception, or by reading past the end of the pieces, which the language does not define.
pub data Outcome (h : Hamlib) : Type 0 where
  answered : List (RigCall h) → List (List ℕ) → Outcome h
  quits throws undefined : Outcome h

-- `==` on two `int`s
abbrev pub same_ℤ : ℤ → ℤ → Bool
same_ℤ (pos m) (pos n) = m == n
same_ℤ (negsuc m) (negsuc n) = m == n
same_ℤ (pos m) (negsuc n) = false
same_ℤ (negsuc m) (pos n) = false

-- "RPRT 0"
abbrev pub accepted : List ℕ
accepted = codes "RPRT 0"

abbrev space : List ℕ
space = codes " "

-- `to_client`
unfoldable pub to_client : ℕ → List ℕ
to_client status = (b'0' + status) % 2 ^ 8 ∷ []

module _ (h : Hamlib) where
  open h use {
    parse_float, print_float, zero_float, vfo_a, vfo_b, vfo_c, vfo_none, parse_level,
    level_is_float, level_agc, agc_off, agc_fast, model_ic7300,
  }

  -- A response that calls nothing.
  abbrev pub says : List ℕ → Outcome h
  says response = answered [] (response ∷ [])

  -- A call that is made with a number, if there is one, and acknowledged.
  abbrev pub with_number : {A : Type 0} → (A → RigCall h) → Option A → Outcome h
  with_number call none = throws
  with_number call (some n) = answered (call n ∷ []) (accepted ∷ [])

  -- `std::stoi(&cmd.c_str()[n])`
  abbrev number_at : ℕ → List ℕ → Option ℤ
  number_at n cmd = stoi (c_string (drop n cmd))

  -- "s": a split that cannot be read, or that names no VFO, is simplex on VFO A.
  unfoldable pub get_split : Option (Bool × ℕ) → Bool × ℕ
  get_split none = (false, vfo_a)
  get_split (some (split, txvfo)) =
      if txvfo == vfo_none
      then (false, vfo_a)
      else (split, if txvfo == vfo_a || txvfo == vfo_b || txvfo == vfo_c then txvfo else vfo_a)

  unfoldable pub answer_split : Option (Bool × ℕ) → List ℕ
  unfolding get_split split_to_string vfo_to_string
  answer_split read =
      let (split, txvfo) = get_split read in split_to_string split ++ b'\n' ∷ vfo_to_string h txvfo

  -- "S "
  unfoldable pub change_split : List (List ℕ) → Outcome h
  unfolding vfo_from_string
  change_split pieces =
      let split = ltb 1 (length pieces) && same_text (get_or pieces 1 []) (codes "1") in
      let txvfo =
        if ltb 2 (length pieces)
        then vfo_from_string h (c_string (get_or pieces 2 []))
        else vfo_a in
      answered (set_split split txvfo ∷ []) (accepted ∷ [])

  -- "M ": `pieces[2]` is read whether or not there is one.
  unfoldable pub change_mode : List (List ℕ) → Outcome h
  unfolding mode_from_string
  change_mode pieces =
      if ltb 2 (length pieces)
      then with_number
          (λ width. set_mode (mode_from_string h (c_string (get_or pieces 1 []))) width)
          (stoi (c_string (get_or pieces 2 [])))
      else undefined

  -- "l "
  unfoldable pub answer_level : Answers h → List ℕ → List ℕ
  answer_level a name =
      let level = parse_level name in
      elim (a.level_error level) [
        | some rc ↦ codes "RPRT " ++ print_ℤ rc
        | none ↦
            if level_is_float level
            then print_float (a.level_float level)
            else print_ℤ (a.level_int level)
      ]

  -- The value of a level, `none` if its parser throws.
  unfoldable pub level_value : ℕ → List (List ℕ) → Option (Value h)
  level_value level pieces =
      let given = get_or pieces 2 [] in
      if level_is_float level
      then if ltb 2 (length pieces)
        then elim (parse_float given) [ none ↦ none | some x ↦ some (float x) ]
        else some (float zero_float)
      else if ltb 2 (length pieces)
      then elim (stoi (c_string given)) [ none ↦ none | some n ↦ some (int n) ]
      else some (int (pos 0))

  -- The IC-7300 cannot switch its AGC off. The test reads the `int` of the union; a float value is
  -- not one of AGC.
  unfoldable pub adapt_agc : ℕ → ℕ → Value h → Value h
  adapt_agc rig_model level (float x) = float x
  adapt_agc rig_model level (int n) =
      if level == level_agc && same_ℤ n agc_off && rig_model == model_ic7300
      then int agc_fast
      else int n

  -- "L "
  unfoldable pub change_level : ℕ → Answers h → List (List ℕ) → Outcome h
  unfolding level_value adapt_agc
  change_level rig_model a pieces =
      let level =
        parse_level (if ltb 1 (length pieces) then c_string (get_or pieces 1 []) else []) in
      elim (level_value level pieces) [
        | none ↦ throws
        | some v ↦
            answered (set_level level (adapt_agc rig_model level v) ∷ [])
              ((codes "RPRT " ++ print_ℤ a.set_level_result) ∷ [])
      ]

  -- The commands with arguments.
  unfoldable pub interpret_setter : ℕ → Answers h → List ℕ → Outcome h
  unfolding change_split change_mode answer_level change_level vfo_from_string
  interpret_setter rig_model a cmd =
      if starts_with cmd (codes "\\set_powerstat ")
      then with_number set_powerstat (number_at 15 cmd)
      else if starts_with cmd (codes "S ")
      then change_split (split_string cmd space)
      else if starts_with cmd (codes "T ")
      then with_number set_ptt (number_at 2 cmd)
      else if starts_with cmd (codes "V ")
      then answered (set_vfo (vfo_from_string h (c_string (drop 2 cmd))) ∷ []) (accepted ∷ [])
      else if starts_with cmd (codes "M ")
      then change_mode (split_string cmd space)
      else if starts_with cmd (codes "F ")
      then with_number set_freq (parse_float (c_string (drop 2 cmd)))
      else if starts_with cmd (codes "l ")
      then says (answer_level a (c_string (drop 2 cmd)))
      else if starts_with cmd (codes "L ")
      then change_level rig_model a (split_string cmd space)
      else answered [] []

  -- `interpret_command` on a trimmed line. The commands of fixed text and those with arguments never
  -- overlap, so they are tested one group after the other.
  unfoldable pub interpret_trimmed : ℕ → Answers h → List ℕ → Outcome h
  unfolding to_client answer_split mode_to_string interpret_setter
  interpret_trimmed rig_model a cmd =
      if same_text cmd (codes "\\get_powerstat")
      then says (to_client a.powerstat)
      else if same_text cmd (codes "\\chk_vfo")
      then says (codes "0")
      else if same_text cmd (codes "\\get_lock_mode")
      then answered [] (print_ℤ a.lock_mode ∷ [] ∷ [])
      else if same_text cmd (codes "\\dump_state")
      then says (dump_state h a.capabilities)
      else if same_text cmd (codes "f")
      then says (print_float a.freq)
      else if same_text cmd (codes "s")
      then says (answer_split a.split)
      else if same_text cmd (codes "t")
      then says (print_ℤ a.ptt)
      else if same_text cmd (codes "m")
      then says (mode_to_string h a.mode ++ b'\n' ∷ print_ℤ a.width)
      else if same_text cmd (codes "q") || same_text cmd (codes "Q")
      then quits
      else if same_text cmd (codes "j")
      then says (print_ℤ a.rit)
      else if same_text cmd (codes "v")
      then says (codes "Main")
      else interpret_setter rig_model a cmd

  -- `interpret_command`; an unknown command gets no response.
  unfoldable pub interpret_command : ℕ → Answers h → List ℕ → Outcome h
  unfolding interpret_trimmed
  interpret_command rig_model a line = interpret_trimmed rig_model a (trim line white_space)
