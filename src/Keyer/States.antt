-- ===== src/Keyer/States.antt =====
-- src/keyer/keyer_state_*.cpp: entering, leaving and updating each state.
pub mod Keeps
pub mod KeyLine
use cwsd.Shared.{
  ℕ, zero, suc, ◌+◌, ◌-◌, ◌*◌, ◌/◌, ◌%◌, ◌^◌, true, false, not, ◌&&◌, ◌||◌, Option, List, [], ◌∷◌,
  get_or, leb, ltb, ◌==◌, if◌then◌else◌, add_u8, add_u16, add_u32,
}
use cwsd.Buffer
use cwsd.Keyer.Floats.{Floats}
use cwsd.Keyer.CharPatterns.{get_char_pattern, decode_char}
use cwsd.Keyer.Winkeyer.{parameter_count, is_winkeyer_command}
use cwsd.Keyer.Machine.{
  Keyer, Answers, Element, none, dit, dah, StateType, idle, send_element, key_down, tune,
  inter_element_space, inter_word_space, play, autospace, winkeyer, half_dot_gap, is_dit, is_none,
  same_state, call, char_sent, play_started, dit_on, dit_off, dah_on, dah_off, check_dit_paddle,
  check_dah_paddle, poll_paddles, set_sidetone_and_tx, weighted_element_length_ms,
  inter_element_space_length_ms, inter_word_space_length_ms,
}
use cwsd.Keyer.Memory.{cell, stop_playing, sent_char}

-- `opposite_element`
unfoldable pub opposite_element : Element → Element
opposite_element none = none
opposite_element dit = dah
opposite_element dah = dit

-- `playing_data & (1 << (playing_bit - 1))`
unfoldable pub playing_element : ℕ → ℕ → Element
playing_element bits n = if bits / 2 ^ (n - 1) % 2 == 1 then dah else dit

-- `get` called `n` times; the bytes in order, and the buffer after them.
unfoldable pub get_arguments : ℕ → Buffer.CircularBuffer ℕ → List ℕ × Buffer.CircularBuffer ℕ
get_arguments zero b = ([], b)
get_arguments (suc n) b =
    let (c, b') = Buffer.get b 0 in let (cs, b'') = get_arguments n b' in (c ∷ cs, b'')

module _ {F : Floats} where
  open F use {of_ℕ, to_u32, literal, plus, minus, times, over}

  -- Where the timed states go on when neither paddles nor memory decide it.
  unfoldable pub resume : Keyer F → StateType
  resume k = if k.is_playing then play else (if k.winkeyer_enabled then winkeyer else idle)

  unfoldable pub autospace_enter : Answers → Keyer F → Keyer F
  autospace_enter a k = record k {
    autospace_exit = to_u32 (
        minus (plus (of_ℕ a.current_ms) k.profile.timings.space_between_chars_ms)
          k.profile.timings.weighted_inter_element_space_ms);
  }

  unfoldable pub autospace_update : Answers → Keyer F → StateType × Keyer F
  unfolding resume
  autospace_update a k = (if leb k.autospace_exit a.current_ms then resume k else autospace, k)

  unfoldable pub half_dot_gap_enter : Answers → Keyer F → Keyer F
  half_dot_gap_enter a k = record k {
    half_dot_exit = add_u32 a.current_ms (weighted_element_length_ms dit k / 2);
  }

  unfoldable pub half_dot_gap_update : Answers → Keyer F → StateType × Keyer F
  unfolding resume
  half_dot_gap_update a k = (if leb k.half_dot_exit a.current_ms then resume k else half_dot_gap, k)

  unfoldable pub idle_enter : Answers → Keyer F → Keyer F
  idle_enter a k =
      let space = k.profile.timings.weighted_inter_element_space_ms in
      record k {
        idle_word_space = to_u32 (
            minus (plus (of_ℕ k.last_send_time) k.profile.timings.space_between_words_ms)
              (times space (literal 15 1)));
        idle_decode = to_u32 (plus (of_ℕ k.last_send_time) (times space (literal 105 2)));
      }

  -- The end of a character, and the end of a word.
  unfoldable pub idle_decode_char : Answers → Keyer F → Keyer F
  idle_decode_char a k =
      if ltb 0 k.sent_char_bits && leb k.idle_decode a.current_ms
      then sent_char (decode_char k.sent_char_data k.sent_char_bits)
          (record k { sent_char_data = 0; sent_char_bits = 0 })
      else k

  unfoldable pub idle_end_word : Answers → Keyer F → Keyer F
  idle_end_word a k =
      if ltb k.idle_word_space a.current_ms && not (is_none k.sent_element)
      then sent_char b' ' (record k { sent_element = none })
      else k

  unfoldable pub idle_update : Answers → Keyer F → StateType × Keyer F
  unfolding poll_paddles idle_decode_char idle_end_word
  idle_update a k₀ =
      let k = poll_paddles a k₀ in
      if k.dit_buffered && k.dah_buffered
      then (
        send_element,
        record k {
          sent_element = if is_none k.sent_element then dit else opposite_element k.sent_element;
        },
      )
      else if k.dit_buffered || k.dah_buffered
      then (send_element, record k { sent_element = if k.dit_buffered then dit else dah })
      else if k.winkeyer_enabled || not (Buffer.empty k.winkeyer_buffer)
      then (winkeyer, k)
      else (idle, idle_end_word a (idle_decode_char a k))

  -- The paddle opposite to the element being sent.
  unfoldable pub check_opposite_paddle : Answers → Keyer F → Keyer F
  unfolding check_dit_paddle check_dah_paddle
  check_opposite_paddle a k =
      if is_dit k.sent_element then check_dah_paddle a k else check_dit_paddle a k

  unfoldable pub inter_element_space_enter : Answers → Keyer F → Keyer F
  inter_element_space_enter a k = record k {
    element_space_exit = add_u32 a.current_ms (inter_element_space_length_ms k);
  }

  unfoldable pub inter_element_space_update : Answers → Keyer F → StateType × Keyer F
  unfolding check_opposite_paddle poll_paddles
  inter_element_space_update a k₀ =
      let k = check_opposite_paddle a k₀ in
      if leb k.element_space_exit a.current_ms
      then if k.winkeyer_enabled
        then (winkeyer, k)
        else if k.is_playing
        then (play, k)
        else (let k' = poll_paddles a k in
            (
              if k'.dit_buffered || k'.dah_buffered || not k'.profile.style.autospace_enabled
                  then idle
                  else autospace,
              k',
            ))
      else (inter_element_space, k)

  unfoldable pub inter_word_space_enter : Answers → Keyer F → Keyer F
  unfolding call
  inter_word_space_enter a k =
      call (char_sent b' ')
        (record k { word_space_exit = add_u32 k.last_send_time (inter_word_space_length_ms k) })

  unfoldable pub inter_word_space_update : Answers → Keyer F → StateType × Keyer F
  unfolding poll_paddles
  inter_word_space_update a k₀ =
      let k = poll_paddles a k₀ in
      if leb k.word_space_exit a.current_ms
      then (
        if k.winkeyer_enabled then winkeyer else play,
        record k { last_send_time = a.current_ms },
      )
      else (inter_word_space, k)

  -- `send_element`: keys the element and adds it to the character. The paddles are checked at once
  -- (`time_to_check_paddles` adds 0.0).
  unfoldable pub send_element_enter : Answers → Keyer F → Keyer F
  unfolding call set_sidetone_and_tx
  send_element_enter a k₀ =
      let k = set_sidetone_and_tx true k₀ in
      let k' = record k {
        send_exit = add_u32 a.current_ms (weighted_element_length_ms k.sent_element k);
        send_check_paddles = a.current_ms;
        sent_char_data = k.sent_char_data * 2 % 2 ^ 8 + (if is_dit k.sent_element then 0 else 1);
        sent_char_bits = add_u8 k.sent_char_bits 1;
      } in
      if is_dit k.sent_element
      then call dit_on (record k' { dit_buffered = false })
      else call dah_on (record k' { dah_buffered = false })

  unfoldable pub send_element_exit : Answers → Keyer F → Keyer F
  unfolding call set_sidetone_and_tx
  send_element_exit a k =
      call (if is_dit k.sent_element then dit_off else dah_off)
        (set_sidetone_and_tx false (record k { last_send_time = a.current_ms }))

  unfoldable pub send_element_update : Answers → Keyer F → StateType × Keyer F
  unfolding check_opposite_paddle
  send_element_update a k = (
    if leb k.send_exit a.current_ms then inter_element_space else send_element,
    if leb k.send_check_paddles a.current_ms then check_opposite_paddle a k else k,
  )

  -- The next element of the character that is played.
  unfoldable pub play_element : Keyer F → StateType × Keyer F
  unfolding playing_element
  play_element k = (
    send_element,
    record k {
      playing_bit = k.playing_bit - 1;
      sent_element = playing_element k.playing_data k.playing_bit;
    },
  )

  -- A character from the memory.
  unfoldable pub play_char : ℕ → Keyer F → StateType × Keyer F
  unfolding play_element
  play_char c k = if c == 0 then (idle, stop_playing k) else elim (get_char_pattern c) [
    | Option.none ↦ (inter_word_space, k)
    | Option.some p ↦ play_element (record k {
      playing_data = p.sent_char_data;
      playing_bit = p.sent_char_bits;
      play_space_played = false;
    })
  ]

  unfoldable pub play_update : Keyer F → StateType × Keyer F
  unfolding play_element play_char
  play_update k =
      if k.playing_bit == 0
      then if not k.play_space_played
        then (autospace, record k { play_space_played = true })
        else (let c = get_or k.memory (cell k.playing_slot k.playing_char_index) 0 in
            play_char c (record k { playing_char_index = add_u16 k.playing_char_index 1 }))
      else play_element k

  unfoldable pub winkeyer_enter : Keyer F → Keyer F
  winkeyer_enter k = record k { winkeyer_enabled = true }

  -- The interpretation of a buffered command, with its first argument.
  unfoldable pub buffered_command : ℕ → ℕ → Keyer F → Keyer F
  buffered_command c first k =
      if c == 0x1c
      then record k { winkeyer_speed_wpm = of_ℕ first }
      else if c == 0x0a
      then record k { winkeyer_buffer = Buffer.reset k.winkeyer_buffer }
      else k

  -- A character from the buffer.
  unfoldable pub winkeyer_char : ℕ → Keyer F → StateType × Keyer F
  unfolding play_element
  winkeyer_char c k = if c == b'|' then (half_dot_gap, k) else elim (get_char_pattern c) [
    | Option.none ↦ (inter_word_space, k)
    | Option.some p ↦ play_element (record k {
      playing_data = p.sent_char_data;
      playing_bit = p.sent_char_bits;
      winkeyer_space_played = false;
    })
  ]

  -- The next byte of a buffer that is not empty; a command waits for its arguments.
  unfoldable pub winkeyer_next : Keyer F → StateType × Keyer F
  unfolding buffered_command winkeyer_char
  winkeyer_next k =
      let c = Buffer.peek k.winkeyer_buffer 0 in
      if is_winkeyer_command c && leb (Buffer.size k.winkeyer_buffer) (parameter_count c)
      then (winkeyer, k)
      else (let (_, b) = Buffer.get k.winkeyer_buffer 0 in
          if is_winkeyer_command c
          then (let (arguments, b') = get_arguments (parameter_count c) b in
              (
                winkeyer,
                buffered_command c (get_or arguments 0 0) (record k { winkeyer_buffer = b' }),
              ))
          else winkeyer_char c (record k { winkeyer_buffer = b }))

  unfoldable pub winkeyer_update : Answers → Keyer F → StateType × Keyer F
  unfolding poll_paddles play_element winkeyer_next
  winkeyer_update a k₀ =
      let k = poll_paddles a k₀ in
      if k.dit_buffered || k.dah_buffered
      then (
        idle,
        record k { winkeyer_enabled = false; winkeyer_buffer = Buffer.reset k.winkeyer_buffer },
      )
      else if k.playing_bit == 0
      then if not k.winkeyer_space_played
        then (autospace, record k { winkeyer_space_played = true })
        else if Buffer.empty k.winkeyer_buffer
        then (winkeyer, k)
        else winkeyer_next k
      else play_element k

  -- `current_state->enter()`, `exit()` and `update()`; `key_down` and `tune` go to `idle`.
  unfoldable pub enter : StateType → Answers → Keyer F → Keyer F
  enter idle a k = idle_enter a k
  enter send_element a k = send_element_enter a k
  enter inter_element_space a k = inter_element_space_enter a k
  enter inter_word_space a k = inter_word_space_enter a k
  enter autospace a k = autospace_enter a k
  enter winkeyer a k = winkeyer_enter k
  enter half_dot_gap a k = half_dot_gap_enter a k
  enter play a k = k
  enter key_down a k = k
  enter tune a k = k

  unfoldable pub exit : StateType → Answers → Keyer F → Keyer F
  exit send_element a k = send_element_exit a k
  exit idle a k = k
  exit key_down a k = k
  exit tune a k = k
  exit inter_element_space a k = k
  exit inter_word_space a k = k
  exit play a k = k
  exit autospace a k = k
  exit winkeyer a k = k
  exit half_dot_gap a k = k

  unfoldable pub update_state : StateType → Answers → Keyer F → StateType × Keyer F
  update_state idle a k = idle_update a k
  update_state send_element a k = send_element_update a k
  update_state key_down a k = (idle, k)
  update_state tune a k = (idle, k)
  update_state inter_element_space a k = inter_element_space_update a k
  update_state inter_word_space a k = inter_word_space_update a k
  update_state play a k = play_update k
  update_state autospace a k = autospace_update a k
  update_state winkeyer a k = winkeyer_update a k
  update_state half_dot_gap a k = half_dot_gap_update a k

  -- `switch_to`, from a current state.
  unfoldable pub switch_to : StateType → Answers → Keyer F → Keyer F
  switch_to next a k =
      if same_state next k.current_state
      then k
      else enter next a (record (exit k.current_state a k) { current_state = next })

  -- The loop of `update`, `n` transitions from its cap, with the answers of the hardware in each
  -- round: one reading of the clock and the paddles for what the round does, where the code reads
  -- the clock again to leave and to enter a state.
  unfoldable pub update_loop : ℕ → (ℕ → Answers) → Keyer F → Keyer F
  update_loop zero answers k = k
  update_loop (suc n) answers k =
      let (next, k') = update_state k.current_state (answers n) k in
      let rest = update_loop n answers (switch_to next (answers n) k') in
      if same_state next k.current_state then k' else rest

  -- `update`
  unfoldable pub update : (ℕ → Answers) → Keyer F → Keyer F
  update answers k = update_loop 16 answers k

  unfoldable pub start_playing : ℕ → Answers → Keyer F → Keyer F
  unfolding call
  start_playing slot a k = call (play_started slot) (
      switch_to play a (record k {
        is_playing = true;
        playing_slot = slot;
        playing_char_index = 0;
        playing_bit = 0;
      }))
