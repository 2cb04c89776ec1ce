-- ===== src/Keyer/States/Keeps.antt =====
-- No state's update moves the key: only entering and leaving a state does.
use cwsd.Shared.{
  ℕ, ◌≡◌, refl, ◌∙◌, Bool, true, false, List, [], ◌∷◌, ◌==◌, ltb, leb, not, ◌&&◌, ◌||◌, get_or, set,
  Option-cases, inl, inr, if_both, add_u16,
}
use cwsd.Buffer
use cwsd.Buffer.{CircularBuffer}
use cwsd.Keyer.Winkeyer.{parameter_count, is_winkeyer_command}
use cwsd.Keyer.Floats.{Floats}
use cwsd.Keyer.CharPatterns.{get_char_pattern, decode_char}
use cwsd.Keyer.Machine.{
  Keyer, Answers, Call, call, char_sent, is_dit, is_none, none, key_goes_down, key_goes_up,
  StateType, idle, send_element, key_down, tune, inter_element_space, inter_word_space, play,
  autospace, winkeyer, half_dot_gap, check_dit_paddle, check_dah_paddle, poll_paddles,
}
use cwsd.Keyer.Memory.{
  stop_recording, add_char_to_recording_memory, sent_char, stop_playing, cell, memory_slot_size,
}
use cwsd.Keyer.States.{
  get_arguments, idle_decode_char, idle_end_word, idle_update, check_opposite_paddle,
  inter_element_space_update, inter_word_space_update, send_element_update, play_element, play_char,
  play_update, buffered_command, winkeyer_char, winkeyer_next, winkeyer_update, autospace_update,
  half_dot_gap_update, update_state,
}

-- Whether the last call that moves the key put it down, the last call first.
abbrev pub key_of : List Call → Bool
key_of [] = false
key_of (key_goes_down ∷ cs) = true
key_of (key_goes_up ∷ cs) = false
key_of (c ∷ cs) = key_of cs

module _ {F : Floats} where
  -- The key and the state are as they were.
  pub data Keeps (k k' : Keyer F) : Type 0 where
    keeps : key_of k'.calls ≡ key_of k.calls → k'.current_state ≡ k.current_state → Keeps k k'

  pub state_kept : {k k' : Keyer F} → Keeps k k' → k'.current_state ≡ k.current_state
  state_kept (keeps key same) = same

  abbrev pub KeepsIn : Keyer F → StateType × Keyer F → Type 0
  KeepsIn k r = Keeps k r.1

  then-Keeps : {k l m : Keyer F} → Keeps k l → Keeps l m → Keeps k m
  then-Keeps (keeps p q) (keeps p' q') = keeps (p' ∙ p) (q' ∙ q)

  check_dit_paddle-Keeps : (a : Answers) (k : Keyer F) → Keeps k (check_dit_paddle a k)
  unfolding check_dit_paddle
  check_dit_paddle-Keeps a k = if_both (Keeps k) a.left (keeps refl refl) (keeps refl refl)

  check_dah_paddle-Keeps : (a : Answers) (k : Keyer F) → Keeps k (check_dah_paddle a k)
  unfolding check_dah_paddle
  check_dah_paddle-Keeps a k = if_both (Keeps k) a.right (keeps refl refl) (keeps refl refl)

  poll_paddles-Keeps : (a : Answers) (k : Keyer F) → Keeps k (poll_paddles a k)
  unfolding poll_paddles
  poll_paddles-Keeps a k =
      then-Keeps (check_dit_paddle-Keeps a k) (check_dah_paddle-Keeps a (check_dit_paddle a k))

  check_opposite_paddle-Keeps : (a : Answers) (k : Keyer F) → Keeps k (check_opposite_paddle a k)
  unfolding check_opposite_paddle
  check_opposite_paddle-Keeps a k =
      if_both (Keeps k) (is_dit k.sent_element) (check_dah_paddle-Keeps a k)
        (check_dit_paddle-Keeps a k)

  stop_recording-Keeps : (k : Keyer F) → Keeps k (stop_recording k)
  unfolding stop_recording call
  stop_recording-Keeps k = keeps refl refl

  add_char_to_recording_memory-Keeps :
      (c : ℕ) (k : Keyer F) → Keeps k (add_char_to_recording_memory c k)
  unfolding add_char_to_recording_memory
  add_char_to_recording_memory-Keeps c k =
      if_both (Keeps k) (ltb l.recording_index memory_slot_size) (keeps refl refl)
        (then-Keeps {l = l} (keeps refl refl) (stop_recording-Keeps l))
    where
      l : Keyer F
      l = record k {
        memory = set k.memory (cell k.recording_slot k.recording_index) c;
        recording_index = add_u16 k.recording_index 1;
      }

  sent_char-Keeps : (c : ℕ) (k : Keyer F) → Keeps k (sent_char c k)
  unfolding sent_char call
  sent_char-Keeps c k =
      if_both (Keeps k) k.is_recording
        (then-Keeps {l = call (char_sent c) k} (keeps refl refl)
          (add_char_to_recording_memory-Keeps c (call (char_sent c) k)))
        (keeps refl refl)

  idle_decode_char-Keeps : (a : Answers) (k : Keyer F) → Keeps k (idle_decode_char a k)
  unfolding idle_decode_char
  idle_decode_char-Keeps a k =
      if_both (Keeps k) (ltb 0 k.sent_char_bits && leb k.idle_decode a.current_ms)
        (then-Keeps {l = l} (keeps refl refl)
          (sent_char-Keeps (decode_char k.sent_char_data k.sent_char_bits) l))
        (keeps refl refl)
    where
      l : Keyer F
      l = record k { sent_char_data = 0; sent_char_bits = 0 }

  idle_end_word-Keeps : (a : Answers) (k : Keyer F) → Keeps k (idle_end_word a k)
  unfolding idle_end_word
  idle_end_word-Keeps a k =
      if_both (Keeps k) (ltb k.idle_word_space a.current_ms && not (is_none k.sent_element))
        (then-Keeps {l = l} (keeps refl refl) (sent_char-Keeps b' ' l)) (keeps refl refl)
    where
      l : Keyer F
      l = record k { sent_element = none }

  idle_update-Keeps : (a : Answers) (k : Keyer F) → KeepsIn k (idle_update a k)
  unfolding idle_update
  idle_update-Keeps a k = then-Keeps (poll_paddles-Keeps a k) (
      if_both (KeepsIn l) (l.dit_buffered && l.dah_buffered) (keeps refl refl) (
        if_both (KeepsIn l) (l.dit_buffered || l.dah_buffered) (keeps refl refl) (
          if_both (KeepsIn l) (l.winkeyer_enabled || not (Buffer.empty l.winkeyer_buffer))
            (keeps refl refl)
            (then-Keeps (idle_decode_char-Keeps a l)
              (idle_end_word-Keeps a (idle_decode_char a l))))))
    where
      l : Keyer F
      l = poll_paddles a k

  inter_element_space_update-Keeps :
      (a : Answers) (k : Keyer F) → KeepsIn k (inter_element_space_update a k)
  unfolding inter_element_space_update
  inter_element_space_update-Keeps a k = then-Keeps (check_opposite_paddle-Keeps a k) (
      if_both (KeepsIn l) (leb l.element_space_exit a.current_ms)
        (if_both (KeepsIn l) l.winkeyer_enabled (keeps refl refl)
          (if_both (KeepsIn l) l.is_playing (keeps refl refl) (poll_paddles-Keeps a l)))
        (keeps refl refl))
    where
      l : Keyer F
      l = check_opposite_paddle a k

  inter_word_space_update-Keeps :
      (a : Answers) (k : Keyer F) → KeepsIn k (inter_word_space_update a k)
  unfolding inter_word_space_update
  inter_word_space_update-Keeps a k =
      then-Keeps (poll_paddles-Keeps a k) (
        if_both (KeepsIn l) (leb l.word_space_exit a.current_ms) (keeps refl refl)
          (keeps refl refl))
    where
      l : Keyer F
      l = poll_paddles a k

  send_element_update-Keeps : (a : Answers) (k : Keyer F) → KeepsIn k (send_element_update a k)
  unfolding send_element_update
  send_element_update-Keeps a k =
      if_both (Keeps k) (leb k.send_check_paddles a.current_ms) (check_opposite_paddle-Keeps a k)
        (keeps refl refl)

  play_element-Keeps : (k : Keyer F) → KeepsIn k (play_element k)
  unfolding play_element
  play_element-Keeps k = (keeps refl refl)

  play_char-Keeps : (c : ℕ) (k : Keyer F) → KeepsIn k (play_char c k)
  unfolding play_char stop_playing
  play_char-Keeps c k = elim (Option-cases (get_char_pattern c)) [
    | inl e ↦ rw (e, play_char) (if_both (KeepsIn k) (c == 0) (keeps refl refl) (keeps refl refl))
    | inr (p, e) ↦
        rw (e, play_char) (if_both (KeepsIn k) (c == 0) (keeps refl refl) (keeps refl refl))
  ]

  play_update-Keeps : (k : Keyer F) → KeepsIn k (play_update k)
  unfolding play_update
  play_update-Keeps k =
      if_both (KeepsIn k) (k.playing_bit == 0)
        (if_both (KeepsIn k) (not k.play_space_played) (keeps refl refl) (
          then-Keeps {l = l} (keeps refl refl)
            (play_char-Keeps (get_or k.memory (cell k.playing_slot k.playing_char_index) 0) l)))
        (play_element-Keeps k)
    where
      l : Keyer F
      l = record k { playing_char_index = add_u16 k.playing_char_index 1 }

  buffered_command-Keeps : (c first : ℕ) (k : Keyer F) → Keeps k (buffered_command c first k)
  unfolding buffered_command
  buffered_command-Keeps c first k =
      if_both (Keeps k) (c == 0x1c) (keeps refl refl)
        (if_both (Keeps k) (c == 0x0a) (keeps refl refl) (keeps refl refl))

  winkeyer_char-Keeps : (c : ℕ) (k : Keyer F) → KeepsIn k (winkeyer_char c k)
  unfolding winkeyer_char
  winkeyer_char-Keeps c k = elim (Option-cases (get_char_pattern c)) [
    | inl e ↦
        rw (e, winkeyer_char) (if_both (KeepsIn k) (c == b'|') (keeps refl refl) (keeps refl refl))
    | inr (p, e) ↦
        rw (e, winkeyer_char) (if_both (KeepsIn k) (c == b'|') (keeps refl refl) (keeps refl refl))
  ]

  winkeyer_next-Keeps : (k : Keyer F) → KeepsIn k (winkeyer_next k)
  unfolding winkeyer_next
  winkeyer_next-Keeps k =
      if_both (KeepsIn k)
        (is_winkeyer_command c && leb (Buffer.size k.winkeyer_buffer) (parameter_count c))
        (keeps refl refl)
        (if_both (KeepsIn k) (is_winkeyer_command c)
          (then-Keeps {l = after taken.1} (keeps refl refl)
            (buffered_command-Keeps c (get_or taken.0 0 0) (after taken.1)))
          (then-Keeps {l = after b} (keeps refl refl) (winkeyer_char-Keeps c (after b))))
    where
      after : CircularBuffer ℕ → Keyer F
      after b' = record k { winkeyer_buffer = b' }

      c : ℕ
      c = Buffer.peek k.winkeyer_buffer 0

      b : CircularBuffer ℕ
      b = (Buffer.get k.winkeyer_buffer 0).1

      taken : List ℕ × CircularBuffer ℕ
      taken = get_arguments (parameter_count c) b

  winkeyer_update-Keeps : (a : Answers) (k : Keyer F) → KeepsIn k (winkeyer_update a k)
  unfolding winkeyer_update
  winkeyer_update-Keeps a k = then-Keeps (poll_paddles-Keeps a k) (
      if_both (KeepsIn l) (l.dit_buffered || l.dah_buffered) (keeps refl refl) (
        if_both (KeepsIn l) (l.playing_bit == 0)
          (if_both (KeepsIn l) (not l.winkeyer_space_played) (keeps refl refl) (
            if_both (KeepsIn l) (Buffer.empty l.winkeyer_buffer) (keeps refl refl)
              (winkeyer_next-Keeps l)))
          (play_element-Keeps l)))
    where
      l : Keyer F
      l = poll_paddles a k

  -- No update moves the key, or changes the current state by itself.
  pub update_state-Keeps :
      (s : StateType) (a : Answers) (k : Keyer F) → KeepsIn k (update_state s a k)
  unfolding update_state autospace_update half_dot_gap_update
  update_state-Keeps idle a k = idle_update-Keeps a k
  update_state-Keeps send_element a k = send_element_update-Keeps a k
  update_state-Keeps key_down a k = keeps refl refl
  update_state-Keeps tune a k = keeps refl refl
  update_state-Keeps inter_element_space a k = inter_element_space_update-Keeps a k
  update_state-Keeps inter_word_space a k = inter_word_space_update-Keeps a k
  update_state-Keeps play a k = play_update-Keeps k
  update_state-Keeps autospace a k = keeps refl refl
  update_state-Keeps winkeyer a k = winkeyer_update-Keeps a k
  update_state-Keeps half_dot_gap a k = keeps refl refl
