-- ===== src/Keyer/Commands.antt =====
-- src/keyer/keyer.cpp, `winkeyer_data`: the bytes that come from the network, and `init`.
pub mod Arguments
use cwsd.Shared.{
  ℕ, ◌-◌, false, not, ◌&&◌, List, [], ◌∷◌, get_or, set, ltb, ◌==◌, if◌then◌else◌, add_u8,
}
use cwsd.Buffer
use cwsd.Keyer.Floats.{Floats}
use cwsd.Keyer.Winkeyer.{parameter_count, is_winkeyer_command, is_winkeyer_buffered_command}
use cwsd.Keyer.Morse.{profile_set_speed, profile_set_weighting, update_timings}
use cwsd.Keyer.Machine.{
  Keyer, Answers, call, key_goes_down, key_goes_up, parameters_changed, idle, none,
}
use cwsd.Keyer.States.{enter}

module _ {F : Floats} where
  open F use {of_ℕ}

  -- The `switch` on a command whose arguments are all there.
  unfoldable pub execute : Keyer F → Keyer F
  unfolding call
  execute k =
      let c = k.winkeyer_pending_command in
      let first = get_or k.winkeyer_arguments 0 0 in
      if c == 0x02
      then call parameters_changed (record k {
        winkeyer_speed_wpm = of_ℕ first;
        profile = profile_set_speed F k.profile (of_ℕ first);
      })
      else if c == 0x03
      then record k { profile = profile_set_weighting F k.profile first }
      else if c == 0x0a
      then record k { winkeyer_buffer = Buffer.reset k.winkeyer_buffer }
      else if c == 0x0b
      then call (if first == 1 then key_goes_down else key_goes_up) k
      else k

  -- An argument of an immediate command; the last one executes it.
  unfoldable pub take_argument : ℕ → Keyer F → Keyer F
  unfolding execute
  take_argument c k =
      let k' = record k {
        winkeyer_arguments = set k.winkeyer_arguments k.winkeyer_argument_index c;
        winkeyer_argument_index = add_u8 k.winkeyer_argument_index 1;
        winkeyer_waiting_for_arguments = k.winkeyer_waiting_for_arguments - 1;
      } in
      if k'.winkeyer_waiting_for_arguments == 0 then execute k' else k'

  -- An immediate command; one without arguments is executed at once.
  unfoldable pub take_command : ℕ → Keyer F → Keyer F
  unfolding execute
  take_command c k =
      let k' = record k {
        winkeyer_pending_command = c;
        winkeyer_waiting_for_arguments = parameter_count c;
        winkeyer_argument_index = 0;
      } in
      if k'.winkeyer_waiting_for_arguments == 0 then execute k' else k'

  -- A byte for the buffer: text, a buffered command, or an argument of one.
  unfoldable pub take_buffered : ℕ → Keyer F → Keyer F
  take_buffered c k =
      let k' = record k { winkeyer_buffer = Buffer.put k.winkeyer_buffer c } in
      if ltb 0 k.winkeyer_remaining_buffered_arguments
      then record k' {
        winkeyer_remaining_buffered_arguments = k.winkeyer_remaining_buffered_arguments - 1;
      }
      else if is_winkeyer_command c && is_winkeyer_buffered_command c
      then record k' { winkeyer_remaining_buffered_arguments = parameter_count c }
      else k'

  -- `winkeyer_data`
  unfoldable pub winkeyer_data : ℕ → Keyer F → Keyer F
  unfolding take_argument take_command take_buffered
  winkeyer_data c k =
      if ltb 0 k.winkeyer_waiting_for_arguments
      then take_argument c k
      else if k.winkeyer_remaining_buffered_arguments == 0
          && is_winkeyer_command c
          && not (is_winkeyer_buffered_command c)
      then take_command c k
      else take_buffered c k

  -- The bytes of a message, one after the other.
  unfoldable pub feed : List ℕ → Keyer F → Keyer F
  feed [] k = k
  feed (c ∷ cs) k = feed cs (winkeyer_data c k)

  -- `init`, which leaves the buffer, the arguments' index and the states' members as they were. It
  -- is called once, by the server's constructor, when the keyer has no state to leave yet.
  unfoldable pub init : Answers → Keyer F → Keyer F
  init a k =
      let profile = update_timings F k.profile in
      enter idle a (record k {
        profile = profile;
        winkeyer_speed_wpm = profile.style.character_wpm;
        winkeyer_enabled = false;
        winkeyer_waiting_for_arguments = 0;
        sent_element = none;
        dit_buffered = false;
        dah_buffered = false;
        sent_char_bits = 0;
        sent_char_data = 0;
        is_recording = false;
        recording_slot = 0;
        is_playing = false;
        playing_slot = 0;
        current_state = idle;
      })
