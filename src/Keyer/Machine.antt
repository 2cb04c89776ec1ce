-- ===== src/Keyer/Machine.antt =====
-- src/keyer/keyer.h, keyer_states.h and the parts of keyer.cpp that all states use: the keyer's data,
-- its hardware, and its lengths of time. The daemon keeps to one of the profiles, which is a member
-- here.
use cwsd.Shared.{ℕ, ◌*◌, ◌%◌, ◌^◌, Bool, true, false, List, ◌∷◌, ◌==◌, if◌then◌else◌}
use cwsd.Buffer.{CircularBuffer}
use cwsd.Keyer.Floats.{Floats}
use cwsd.Keyer.Morse.{Profile}

pub data Element : Type 0 where
  none dit dah : Element

pub data StateType : Type 0 where
  idle send_element key_down tune inter_element_space inter_word_space play autospace winkeyer
        half_dot_gap :
      StateType

-- The values of `state_type`.
abbrev pub state_value : StateType → ℕ
state_value idle = 0
state_value send_element = 1
state_value key_down = 2
state_value tune = 3
state_value inter_element_space = 4
state_value inter_word_space = 5
state_value play = 6
state_value autospace = 7
state_value winkeyer = 8
state_value half_dot_gap = 9

abbrev pub same_state : StateType → StateType → Bool
same_state a b = state_value a == state_value b

abbrev pub is_dit : Element → Bool
is_dit dit = true
is_dit _ = false

abbrev pub is_none : Element → Bool
is_none none = true
is_none _ = false

-- The calls of `hw_interface` that the keyer makes.
pub data Call : Type 0 where
  tone_on : ℕ → Call
  tone_off key_goes_down key_goes_up dit_on dit_off dah_on dah_off : Call
  char_sent play_started record_started : ℕ → Call
  play_stopped record_stopped parameters_changed : Call

-- What the hardware answers: `current_ms` and `is_paddle_pressed`, the same throughout one call of
-- a state's method.
pub record Answers : Type 0 where
  pub current_ms : ℕ
  pub left : Bool
  pub right : Bool

-- `keyer_internal_state`, the members of the states' instances (from `idle_word_space` on), and the
-- hardware calls made so far, the last one first. `memory` holds the slots one behind the other.
pub record Keyer (F : Floats) : Type 0 where
  pub profile : Profile F
  pub current_state : StateType
  pub sent_element : Element
  pub dit_buffered : Bool
  pub dah_buffered : Bool
  pub sent_char_data : ℕ
  pub sent_char_bits : ℕ
  pub is_recording : Bool
  pub recording_slot : ℕ
  pub recording_index : ℕ
  pub is_playing : Bool
  pub playing_slot : ℕ
  pub memory : List ℕ
  pub playing_char_index : ℕ
  pub playing_data : ℕ
  pub playing_bit : ℕ
  pub winkeyer_buffer : CircularBuffer ℕ
  pub winkeyer_enabled : Bool
  pub winkeyer_pending_command : ℕ
  pub winkeyer_waiting_for_arguments : ℕ
  pub winkeyer_arguments : List ℕ
  pub winkeyer_argument_index : ℕ
  pub winkeyer_speed_wpm : F.Float
  pub last_send_time : ℕ
  pub winkeyer_remaining_buffered_arguments : ℕ
  pub idle_word_space : ℕ
  pub idle_decode : ℕ
  pub send_exit : ℕ
  pub send_check_paddles : ℕ
  pub element_space_exit : ℕ
  pub word_space_exit : ℕ
  pub autospace_exit : ℕ
  pub half_dot_exit : ℕ
  pub play_space_played : Bool
  pub winkeyer_space_played : Bool
  pub calls : List Call

module _ {F : Floats} where
  unfoldable pub call : Call → Keyer F → Keyer F
  call c k = record k { calls = c ∷ k.calls }

  -- `check_dit_paddle`, `check_dah_paddle`
  unfoldable pub check_dit_paddle : Answers → Keyer F → Keyer F
  check_dit_paddle a k = if a.left then record k { dit_buffered = true } else k

  unfoldable pub check_dah_paddle : Answers → Keyer F → Keyer F
  check_dah_paddle a k = if a.right then record k { dah_buffered = true } else k

  -- `poll_paddles`; `data.paddles` follows from the two flags.
  unfoldable pub poll_paddles : Answers → Keyer F → Keyer F
  unfolding check_dit_paddle check_dah_paddle
  poll_paddles a k = check_dah_paddle a (check_dit_paddle a k)

  -- `set_sidetone_and_tx`
  unfoldable pub set_sidetone_and_tx : Bool → Keyer F → Keyer F
  unfolding call
  set_sidetone_and_tx true k = call key_goes_down (call (tone_on k.profile.sidetone_frequency) k)
  set_sidetone_and_tx false k = call key_goes_up (call tone_off k)

  open F use {of_ℕ, to_u32, literal, plus, minus, times, over}

  -- `element_length_ms`; what is not a dit counts as a dah.
  unfoldable pub element_length_ms : Element → Keyer F → ℕ
  element_length_ms e k =
      if k.winkeyer_enabled
      then if is_dit e
        then to_u32 (over (of_ℕ 1200) k.winkeyer_speed_wpm)
        else to_u32 (over (times (of_ℕ 1200) k.profile.style.dah_dit_ratio) k.winkeyer_speed_wpm)
      else to_u32 (
          if is_dit e then k.profile.timings.weighted_dit_ms else k.profile.timings.weighted_dah_ms)

  unfoldable pub weighted_element_length_ms : Element → Keyer F → ℕ
  weighted_element_length_ms e k =
      if k.winkeyer_enabled
      then to_u32
          (over (times (of_ℕ (element_length_ms e k)) k.profile.style.weighting) (literal 500 1))
      else to_u32 (
          if is_dit e then k.profile.timings.weighted_dit_ms else k.profile.timings.weighted_dah_ms)

  unfoldable pub inter_element_space_length_ms : Keyer F → ℕ
  inter_element_space_length_ms k =
      if k.winkeyer_enabled
      then to_u32 (
          times (of_ℕ (element_length_ms dit k))
            (over (minus (of_ℕ 100) k.profile.style.weighting) (literal 500 1)))
      else to_u32 k.profile.timings.weighted_inter_element_space_ms

  unfoldable pub inter_word_space_length_ms : Keyer F → ℕ
  inter_word_space_length_ms k =
      if k.winkeyer_enabled
      then element_length_ms dit k * k.profile.style.impulses_between_words % 2 ^ 32
      else to_u32 k.profile.timings.space_between_words_ms
