-- ===== src/CwDaemon/KeyInterface/Follows.antt =====
-- The DTR line against the keyer's state: the keyer's calls, as `key_interface` hears them, while the
-- keyer is fed and updated.
use cwsd.Shared.{
  ℕ, ◌≡◌, refl, ap, subst, set, add_u8, ==_iff, ◌∙◌, ◌-◌, Bool, true, false, ◌&&◌, ◌==◌, some, List,
  [], ◌∷◌, arith, Bool-cases, inl, inr, ltb, if_both,
}
use cwsd.Keyer.Floats.{Floats}
use cwsd.Keyer.Machine.{Keyer, Answers, Call, send_element, same_state, call}
use cwsd.Keyer.States.{enter, idle_enter}
use cwsd.Keyer.States.Keeps.{key_of}
use cwsd.Keyer.States.KeyLine
use cwsd.Keyer.States.KeyLine.{Action, KeyFollows, run-KeyFollows}
use cwsd.Keyer.Winkeyer.{parameter_count, is_winkeyer_command, is_winkeyer_buffered_command}
use cwsd.Keyer.Commands.{
  feed, init, winkeyer_data, take_argument, take_command, take_buffered, execute,
}
use cwsd.CwDaemon.KeyInterface.{
  KeyInterface, new_interface, open_port, set_dtr, on_key_down, on_key_up, hear, hear_all, start,
  line_on,
}

-- A step of the daemon: the keyer is updated or starts to play, or a byte is fed to it.
pub data Step : Type 0 where
  does : Action → Step
  takes : ℕ → Step

-- An open device that stays has its line where the calls put it.
hear_all-key_of :
    (cs : List Call) (i : KeyInterface)
    → i.fd_is_live ≡ true
    → i.dtr ≡ false
    → ((hear_all cs i).fd_is_live ≡ true) × ((hear_all cs i).dtr ≡ key_of cs)
unfolding hear_all
hear_all-key_of [] i live off = (live, off)
hear_all-key_of (c ∷ cs) i live off =
    let (still, line) = hear_all-key_of cs i live off in
    unfold hear on_key_down on_key_up set_dtr in ground arith

-- The command that moves the key has an argument.
has_argument : (c : ℕ) → (parameter_count c == 0) ≡ true → (c == 0x0b) ≡ false
unfolding parameter_count
has_argument c none_asked = elim (Bool-cases (c == 0x0b)) [
  | inl e ↦
      ground (arith, subst (λ d. (parameter_count d == 0) ≡ true) ((==_iff c 0x0b).0 e) none_asked)
  | inr e ↦ e
]

module _ {F : Floats} where
  -- The first byte of the speed command, and the speed.
  speed_asked :
      (k : Keyer F)
      → k.winkeyer_waiting_for_arguments ≡ 0
      → k.winkeyer_remaining_buffered_arguments ≡ 0
      → winkeyer_data 0x02 k ≡ record k {
        winkeyer_pending_command = 0x02;
        winkeyer_waiting_for_arguments = 1;
        winkeyer_argument_index = 0;
      }
  unfolding winkeyer_data take_command execute is_winkeyer_command is_winkeyer_buffered_command
      parameter_count
  speed_asked k none_waits none_left = rw (none_waits, none_left) refl

  speed-KeyFollows :
      (wpm : ℕ) (k : Keyer F)
      → k.winkeyer_waiting_for_arguments ≡ 1
      → k.winkeyer_pending_command ≡ 0x02
      → KeyFollows k
      → KeyFollows (winkeyer_data wpm k)
  unfolding winkeyer_data take_argument execute call
  speed-KeyFollows wpm k one asked f = ground (arith, f)

  start-KeyFollows :
      (wpm : ℕ) (a : Answers) (k : Keyer F)
      → key_of k.calls ≡ false
      → k.winkeyer_remaining_buffered_arguments ≡ 0
      → KeyFollows (start wpm a k)
  unfolding start feed init enter idle_enter
  start-KeyFollows wpm a k up none_left =
      rw (speed_asked (init a k) refl none_left) (speed-KeyFollows wpm _ refl refl up)

  -- Whether the next byte is the argument of the command that moves the key by itself.
  abbrev pub moves_key : Keyer F → Bool
  moves_key k = k.winkeyer_waiting_for_arguments == 1 && k.winkeyer_pending_command == 0x0b

  execute-KeyFollows :
      (k : Keyer F)
      → (k.winkeyer_pending_command == 0x0b) ≡ false
      → KeyFollows k
      → KeyFollows (execute k)
  unfolding execute call
  execute-KeyFollows k other f = ground (arith, other, f)

  take_argument-KeyFollows :
      (c : ℕ) (k : Keyer F)
      → ltb 0 k.winkeyer_waiting_for_arguments ≡ true
      → moves_key k ≡ false
      → KeyFollows k
      → KeyFollows (take_argument c k)
  unfolding take_argument
  take_argument-KeyFollows c k waits still f =
      elim (Bool-cases (k.winkeyer_waiting_for_arguments - 1 == 0)) [
        | inl e ↦
            let other : (k.winkeyer_pending_command == 0x0b) ≡ false = ground arith in
            rw e (execute-KeyFollows advanced other f)
        | inr e ↦ rw e f
      ]
    where
      advanced : Keyer F
      advanced = record k {
        winkeyer_arguments = set k.winkeyer_arguments k.winkeyer_argument_index c;
        winkeyer_argument_index = add_u8 k.winkeyer_argument_index 1;
        winkeyer_waiting_for_arguments = k.winkeyer_waiting_for_arguments - 1;
      }

  take_command-KeyFollows : (c : ℕ) (k : Keyer F) → KeyFollows k → KeyFollows (take_command c k)
  unfolding take_command
  take_command-KeyFollows c k f = elim (Bool-cases (parameter_count c == 0)) [
    | inl e ↦ rw e (execute-KeyFollows asked (has_argument c e) f)
    | inr e ↦ rw e f
  ]
    where
      asked : Keyer F
      asked = record k {
        winkeyer_pending_command = c;
        winkeyer_waiting_for_arguments = parameter_count c;
        winkeyer_argument_index = 0;
      }

  take_buffered-KeyFollows : (c : ℕ) (k : Keyer F) → KeyFollows k → KeyFollows (take_buffered c k)
  unfolding take_buffered
  take_buffered-KeyFollows c k f = ground (arith, f)

  winkeyer_data-KeyFollows :
      (c : ℕ) (k : Keyer F) → moves_key k ≡ false → KeyFollows k → KeyFollows (winkeyer_data c k)
  unfolding winkeyer_data
  winkeyer_data-KeyFollows c k still f =
      elim (Bool-cases (ltb 0 k.winkeyer_waiting_for_arguments)) [
        | inl waits ↦ rw waits (take_argument-KeyFollows c k waits still f)
        | inr none_waits ↦
            rw none_waits (
              if_both KeyFollows _ (take_command-KeyFollows c k f) (take_buffered-KeyFollows c k f))
      ]

  -- What the daemon's threads do to the keyer: bytes fed, and what else they call.
  unfoldable pub drive : Keyer F → List Step → Keyer F
  unfolding KeyLine.run
  drive k [] = k
  drive k (does act ∷ steps) = drive (KeyLine.run k (act ∷ [])) steps
  drive k (takes c ∷ steps) = drive (winkeyer_data c k) steps

  -- No byte is the argument of the command that moves the key.
  abbrev pub NoTuning : Keyer F → List Step → Type 0
  NoTuning k [] = Unit
  NoTuning k (does act ∷ steps) = NoTuning (KeyLine.run k (act ∷ [])) steps
  NoTuning k (takes c ∷ steps) = (moves_key k ≡ false) × NoTuning (winkeyer_data c k) steps

  drive-KeyFollows :
      (k : Keyer F) (steps : List Step)
      → NoTuning k steps
      → KeyFollows k
      → KeyFollows (drive k steps)
  unfolding drive
  drive-KeyFollows k [] still f = f
  drive-KeyFollows k (does act ∷ steps) still f =
      drive-KeyFollows (KeyLine.run k (act ∷ [])) steps still (run-KeyFollows k (act ∷ []) f)
  drive-KeyFollows k (takes c ∷ steps) still f =
      drive-KeyFollows (winkeyer_data c k) steps still.1 (winkeyer_data-KeyFollows c k still.0 f)

  -- With a device that was opened before the keyer was started, whether or not opening it raised
  -- its line, with the key up and no argument of a buffered command awaited, and that stays, the
  -- line is on just while the keyer is in the state that sends an element, after any bytes fed,
  -- none of which is the argument of the command that moves the key by itself, and any calls of
  -- `update` and `start_playing`, whatever the clock and the paddles answer.
  pub line_follows :
      (wpm : ℕ) (a : Answers) (k : Keyer F) (raised : Bool) (steps : List Step)
      → key_of k.calls ≡ false
      → k.winkeyer_remaining_buffered_arguments ≡ 0
      → NoTuning (start wpm a k) steps
      → let k' = drive (start wpm a k) steps in
        let i = (open_port (some raised) new_interface).1 in
        line_on (hear_all k'.calls i) ≡ same_state k'.current_state send_element
  unfolding open_port set_dtr
  line_follows wpm a k raised steps up none_left still =
      let k' = drive (start wpm a k) steps in
      let i = (open_port (some raised) new_interface).1 in
      let (live, line) = hear_all-key_of k'.calls i refl refl in
      ap (λ b. b && (hear_all k'.calls i).dtr) live
      ∙ line
      ∙ drive-KeyFollows (start wpm a k) steps still (start-KeyFollows wpm a k up none_left)
