-- ===== src/Keyer/States/KeyLine.antt =====
-- The key line: it is down just while an element is being sent.
use cwsd.Shared.{ℕ, zero, suc, ◌≡◌, refl, true, false, List, [], ◌∷◌, Bool-cases, inl, inr, if_both}
use cwsd.Keyer.Floats.{Floats}
use cwsd.Keyer.Machine.{
  Keyer, Answers, call, is_dit, StateType, idle, send_element, key_down, tune, inter_element_space,
  inter_word_space, play, autospace, winkeyer, half_dot_gap, same_state, set_sidetone_and_tx,
}
use cwsd.Keyer.States.{
  update_state, idle_enter, send_element_enter, inter_element_space_enter, inter_word_space_enter,
  autospace_enter, winkeyer_enter, half_dot_gap_enter, send_element_exit, enter, exit, switch_to,
  update_loop, update, start_playing,
}
use cwsd.Keyer.States.Keeps.{key_of, Keeps, keeps, update_state-Keeps}

-- What the keyer's threads call: `update`, with the hardware's answers in each round of its loop,
-- and `start_playing`.
pub data Action : Type 0 where
  ticks : (ℕ → Answers) → Action
  plays : ℕ → Answers → Action

module _ {F : Floats} where
  -- The key is down just in the state that sends an element.
  abbrev pub KeyFollows : Keyer F → Type 0
  KeyFollows k = key_of k.calls ≡ same_state k.current_state send_element

  -- Entering a state with the key up puts it down just for an element.
  data Enters (s : StateType) (k k' : Keyer F) : Type 0 where
    enters :
        key_of k'.calls ≡ same_state s send_element
        → k'.current_state ≡ k.current_state
        → Enters s k k'

  send_element_enter-Enters :
      (a : Answers) (k : Keyer F) → Enters send_element k (send_element_enter a k)
  unfolding send_element_enter call set_sidetone_and_tx
  send_element_enter-Enters a k =
      if_both (Enters send_element k) (is_dit k.sent_element) (enters refl refl) (enters refl refl)

  enter-Enters :
      (s : StateType) (a : Answers) (k : Keyer F)
      → key_of k.calls ≡ false
      → Enters s k (enter s a k)
  unfolding enter idle_enter inter_element_space_enter inter_word_space_enter autospace_enter
      winkeyer_enter half_dot_gap_enter call
  enter-Enters idle a k up = enters up refl
  enter-Enters send_element a k up = send_element_enter-Enters a k
  enter-Enters key_down a k up = enters up refl
  enter-Enters tune a k up = enters up refl
  enter-Enters inter_element_space a k up = enters up refl
  enter-Enters inter_word_space a k up = enters up refl
  enter-Enters play a k up = enters up refl
  enter-Enters autospace a k up = enters up refl
  enter-Enters winkeyer a k up = enters up refl
  enter-Enters half_dot_gap a k up = enters up refl

  send_element_exit_up : (a : Answers) (k : Keyer F) → key_of (send_element_exit a k).calls ≡ false
  unfolding send_element_exit call set_sidetone_and_tx
  send_element_exit_up a k = elim (Bool-cases (is_dit k.sent_element)) [
    | inl e ↦ rw e refl
    | inr e ↦ rw e refl
  ]

  -- Leaving a state leaves the key up.
  exit_up :
      (s : StateType) (a : Answers) (k : Keyer F)
      → key_of k.calls ≡ same_state s send_element
      → key_of (exit s a k).calls ≡ false
  unfolding exit
  exit_up idle a k f = f
  exit_up send_element a k f = send_element_exit_up a k
  exit_up key_down a k f = f
  exit_up tune a k f = f
  exit_up inter_element_space a k f = f
  exit_up inter_word_space a k f = f
  exit_up play a k f = f
  exit_up autospace a k f = f
  exit_up winkeyer a k f = f
  exit_up half_dot_gap a k f = f

  Enters-KeyFollows :
      {s : StateType} {k k' : Keyer F} → k.current_state ≡ s → Enters s k k' → KeyFollows k'
  Enters-KeyFollows {s} {k} {k'} now (enters key same) = rw (same, now) key

  switch_to-KeyFollows :
      (next : StateType) (a : Answers) (k : Keyer F)
      → KeyFollows k
      → KeyFollows (switch_to next a k)
  unfolding switch_to
  switch_to-KeyFollows next a k f =
      if_both KeyFollows (same_state next k.current_state) f
        (Enters-KeyFollows refl (enter-Enters next a left (exit_up k.current_state a k f)))
    where
      left : Keyer F
      left = record (exit k.current_state a k) { current_state = next }

  Keeps-KeyFollows : {k k' : Keyer F} → Keeps k k' → KeyFollows k → KeyFollows k'
  Keeps-KeyFollows (keeps key same) f = rw (key, same) f

  update_loop-KeyFollows :
      (n : ℕ) (answers : ℕ → Answers) (k : Keyer F)
      → KeyFollows k
      → KeyFollows (update_loop n answers k)
  unfolding update_loop
  update_loop-KeyFollows zero answers k f = f
  update_loop-KeyFollows (suc n) answers k f =
      if_both KeyFollows (same_state next k.current_state) f' (
        update_loop-KeyFollows n answers (switch_to next (answers n) k')
          (switch_to-KeyFollows next (answers n) k' f'))
    where
      next : StateType
      next = (update_state k.current_state (answers n) k).0

      k' : Keyer F
      k' = (update_state k.current_state (answers n) k).1

      f' : KeyFollows k'
      f' = Keeps-KeyFollows (update_state-Keeps k.current_state (answers n) k) f

  unfoldable pub run : Keyer F → List Action → Keyer F
  run k [] = k
  run k (ticks answers ∷ acts) = run (update answers k) acts
  run k (plays slot a ∷ acts) = run (start_playing slot a k) acts

  start_playing-KeyFollows :
      (slot : ℕ) (a : Answers) (k : Keyer F) → KeyFollows k → KeyFollows (start_playing slot a k)
  unfolding start_playing call
  start_playing-KeyFollows slot a k f = switch_to-KeyFollows play a l f
    where
      l : Keyer F
      l = record k {
        is_playing = true;
        playing_slot = slot;
        playing_char_index = 0;
        playing_bit = 0;
      }

  -- If the key is down just in the state that sends an element, then so it is after any number of
  -- calls of `update` and `start_playing`, whatever the clock and the paddles answer.
  pub run-KeyFollows : (k : Keyer F) (acts : List Action) → KeyFollows k → KeyFollows (run k acts)
  unfolding run update
  run-KeyFollows k [] f = f
  run-KeyFollows k (ticks answers ∷ acts) f =
      run-KeyFollows (update answers k) acts (update_loop-KeyFollows 16 answers k f)
  run-KeyFollows k (plays slot a ∷ acts) f =
      run-KeyFollows (start_playing slot a k) acts (start_playing-KeyFollows slot a k f)
