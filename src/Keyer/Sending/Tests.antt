-- ===== src/Keyer/Sending/Tests.antt =====
-- Two letters, fed and sent.
use cwsd.Shared.{ℕ, zero, suc, ◌+◌, ◌*◌, ◌≤◌, ◌≡◌, true, refl, leb→le, List, [], ◌∷◌, ◌++◌}
use cwsd.Buffer.{create, put, get, peek, empty, size}
use cwsd.Keyer.Tests.{ready, ready-Sends}
use cwsd.Keyer.CharPatterns.{get_char_pattern}
use cwsd.Keyer.Winkeyer.{parameter_count, is_winkeyer_command, is_winkeyer_buffered_command}
use cwsd.Keyer.Machine.{
  dit, dah, call, check_dah_paddle, check_dit_paddle, poll_paddles, set_sidetone_and_tx,
  element_length_ms, inter_element_space_length_ms, weighted_element_length_ms,
}
use cwsd.Keyer.States.{
  update, update_loop, update_state, idle_update, switch_to, enter, exit, winkeyer_enter,
  winkeyer_update, autospace_enter, autospace_update, buffered_command, check_opposite_paddle,
  get_arguments, idle_enter, inter_element_space_enter, inter_element_space_update, play_element,
  playing_element, resume, send_element_enter, send_element_exit, send_element_update,
  winkeyer_char, winkeyer_next,
}
use cwsd.Keyer.Commands.{winkeyer_data, take_buffered}
use cwsd.Keyer.Sending.{
  Sends, Act, ticks, feeds, account, code, lacking, fed, keyed, run, keeps_all, is_kept, elements,
  code_of, arguments_of,
}
use cwsd.Keyer.Sending.Feeds.{waits}
use cwsd.Keyer.Sending.Order.{account-run}
use cwsd.Keyer.Sending.Drains.{rounds_left}
use cwsd.Keyer.Sending.Sent.{due_ticks, all_ticks, fed_sent}

-- Calls of `update`, a second apart.
abbrev pub seconds : ℕ → ℕ → List (ℕ → ℕ)
seconds from zero = []
seconds from (suc n) = (λ round. from * 1000) ∷ seconds (from + 1) n

-- A speed, a letter, a tick, and a letter.
abbrev some_acts : List Act
some_acts = feeds 0x1c ∷ feeds 20 ∷ feeds b'A' ∷ ticks (λ round. 100) ∷ feeds b'T' ∷ []

some_acts_kept : keeps_all ready some_acts ≡ true
unfolding keeps_all create winkeyer_data is_winkeyer_command is_winkeyer_buffered_command put
    parameter_count update update_loop update_state idle_update empty switch_to enter winkeyer_enter
    winkeyer_update exit autospace_enter get peek size is_kept take_buffered poll_paddles
    check_dit_paddle check_dah_paddle autospace_update
some_acts_kept = refl

enough : rounds_left (run ready some_acts) ≤ due_ticks (run ready some_acts) (seconds 1 110)
unfolding rounds_left run due_ticks create winkeyer_data is_winkeyer_command
    is_winkeyer_buffered_command put parameter_count update update_loop update_state idle_update
    empty switch_to enter winkeyer_enter winkeyer_update exit autospace_enter get peek size is_kept
    take_buffered poll_paddles check_dit_paddle check_dah_paddle autospace_update resume idle_enter
    winkeyer_next winkeyer_char get_arguments buffered_command get_char_pattern play_element
    send_element_enter send_element_exit send_element_update inter_element_space_enter
    inter_element_space_update set_sidetone_and_tx call weighted_element_length_ms element_length_ms
    inter_element_space_length_ms playing_element check_opposite_paddle
enough = leb→le _ _ refl

complete : lacking (waits ready) (fed some_acts) ≡ 0
unfolding lacking fed is_winkeyer_command parameter_count
complete = refl

fed_sent_example :
    keyed (run (run ready some_acts) (all_ticks (seconds 1 110))).calls ≡ dit ∷ dah ∷ dah ∷ []
unfolding keyed elements code code_of size create fed is_winkeyer_command parameter_count
    get_char_pattern playing_element arguments_of
fed_sent_example =
    fed_sent some_acts (seconds 1 110) ready ready-Sends some_acts_kept complete enough

account-run_example :
    Sends (run ready some_acts)
    × (waits (run ready some_acts) ≡ lacking (waits ready) (fed some_acts))
    × (account (run ready some_acts) ≡ account ready ++ code (waits ready) (fed some_acts))
account-run_example = account-run some_acts ready ready-Sends some_acts_kept

-- The letters alone.
abbrev pub two_letters : List Act
two_letters = feeds b'A' ∷ ticks (λ round. 100) ∷ feeds b'T' ∷ []

pub two_letters_kept : keeps_all ready two_letters ≡ true
unfolding keeps_all create winkeyer_data is_winkeyer_command is_winkeyer_buffered_command put
    parameter_count update update_loop update_state idle_update empty switch_to enter winkeyer_enter
    winkeyer_update exit autospace_enter get peek size is_kept take_buffered poll_paddles
    check_dit_paddle check_dah_paddle autospace_update
two_letters_kept = refl

pub two_letters_enough :
    rounds_left (run ready two_letters) ≤ due_ticks (run ready two_letters) (seconds 1 110)
unfolding rounds_left run due_ticks create winkeyer_data is_winkeyer_command
    is_winkeyer_buffered_command put parameter_count update update_loop update_state idle_update
    empty switch_to enter winkeyer_enter winkeyer_update exit autospace_enter get peek size is_kept
    take_buffered poll_paddles check_dit_paddle check_dah_paddle autospace_update resume idle_enter
    winkeyer_next winkeyer_char get_arguments buffered_command get_char_pattern play_element
    send_element_enter send_element_exit send_element_update inter_element_space_enter
    inter_element_space_update set_sidetone_and_tx call weighted_element_length_ms element_length_ms
    inter_element_space_length_ms playing_element check_opposite_paddle
two_letters_enough = leb→le _ _ refl
