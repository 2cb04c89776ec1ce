-- ===== src/Keyer/Tests.antt =====
-- Characters, and a profile with whole numbers for floats.
use cwsd.Shared.{
  arith, ℕ, ◌+◌, ◌-◌, ◌*◌, ◌/◌, ◌^◌, ◌≤◌, ◌<◌, ◌≡◌, false, true, List, [], ◌∷◌, some, refl, leb,
}
use cwsd.Buffer.{create, size}
use cwsd.Buffer.Inv.{IsValid, create-IsValid}
use cwsd.Keyer.Floats.{Floats}
use cwsd.Keyer.Machine.{Keyer, idle, none}
use cwsd.Keyer.States.KeyLine.{KeyFollows, Action, ticks, run, run-KeyFollows}
use cwsd.Keyer.Morse.{Profile, default_style, timings_of}
use cwsd.Keyer.Commands.{feed}
use cwsd.Keyer.Commands.Arguments.{feed_bounds}
use cwsd.Keyer.Sending.{Sends, is_buffered_stream, lacking}
use cwsd.Keyer.CharPatterns.{
  CharPattern, get_char_pattern, decode_char, decode_char-get_char_pattern,
}

-- Whole numbers in place of floats.
abbrev pub whole : Floats
whole = record {
  Float = ℕ;
  of_ℕ = λ n. n;
  to_u32 = λ n. n;
  literal = λ n k. n / 10 ^ k;
  plus = λ a b. a + b;
  minus = λ a b. a - b;
  times = λ a b. a * b;
  over = λ a b. a / b;
  abs = λ a. a;
  at_most = leb;
}

abbrev pub first_profile : Profile whole
first_profile = record {
  style = default_style whole;
  timings = timings_of whole (default_style whole);
  sidetone_frequency = 600;
}

-- A closing brace.
abbrev brace : CharPattern
brace = record { sent_char_data = 0b10110; sent_char_bits = 5; character = b'}' }

brace_found : get_char_pattern b'}' ≡ some brace
unfolding get_char_pattern
brace_found = refl

decode_char-get_char_pattern_example :
    (decode_char 0b10110 5 ≡ b'(') × (1 ≤ 5) × (5 ≤ 7) × (0b10110 < 2 ^ 5)
decode_char-get_char_pattern_example = decode_char-get_char_pattern b'}' brace brace_found

-- A keyer at rest, just started.
abbrev pub at_rest : Keyer whole
at_rest = record {
  profile = first_profile;
  current_state = idle;
  sent_element = none;
  dit_buffered = false;
  dah_buffered = false;
  sent_char_data = 0;
  sent_char_bits = 0;
  is_recording = false;
  recording_slot = 0;
  recording_index = 0;
  is_playing = false;
  playing_slot = 0;
  memory = [];
  playing_char_index = 0;
  playing_data = 0;
  playing_bit = 0;
  winkeyer_buffer = create [] 160;
  winkeyer_enabled = false;
  winkeyer_pending_command = 0;
  winkeyer_waiting_for_arguments = 0;
  winkeyer_arguments = [];
  winkeyer_argument_index = 0;
  winkeyer_speed_wpm = 24;
  last_send_time = 0;
  winkeyer_remaining_buffered_arguments = 0;
  idle_word_space = 0;
  idle_decode = 0;
  send_exit = 0;
  send_check_paddles = 0;
  element_space_exit = 0;
  word_space_exit = 0;
  autospace_exit = 0;
  half_dot_exit = 0;
  play_space_played = false;
  winkeyer_space_played = false;
  calls = [];
}

-- The left paddle at 0.1 s, and a tick after it.
abbrev two_ticks : List Action
two_ticks =
    ticks (λ n. record { current_ms = 100; left = true; right = false })
    ∷ ticks (λ n. record { current_ms = 300; left = false; right = false })
    ∷ []

run-KeyFollows_example : KeyFollows (run at_rest two_ticks)
run-KeyFollows_example = run-KeyFollows at_rest two_ticks refl

-- A speed command, and a tuning command that still lacks its argument.
feed_bounds_example :
    let k' = feed (0x02 ∷ 20 ∷ 0x0b ∷ []) at_rest in
    k'.winkeyer_argument_index + k'.winkeyer_waiting_for_arguments ≤ 15
feed_bounds_example = feed_bounds (0x02 ∷ 20 ∷ 0x0b ∷ []) at_rest refl (omega arith)

-- A dit of 50 ms, in whole numbers.
abbrev plain_profile : Profile whole
plain_profile = record {
  style = record {
    impulses_between_words = 6;
    impulses_between_characters = 3;
    autospace_enabled = true;
    dah_dit_ratio = 3;
    weighting = 50;
    extra_letterspace_percent = 0;
    keying_compensation_ms = 0;
    character_wpm = 24;
    farnsworth_wpm = 24;
    paddle_switchpoint = 50;
    speed_low = 20;
    speed_high = 40;
    dah_dit_ratio_low = 3;
    dah_dit_ratio_high = 3;
    weighting_low = 10;
    weighting_high = 90;
    extra_letterspace_percent_low = 0;
    extra_letterspace_percent_high = 0;
  };
  timings = record {
    dit_ms = 50;
    dah_ms = 150;
    space_between_chars_ms = 150;
    space_between_words_ms = 300;
    weighted_dit_ms = 50;
    weighted_dah_ms = 150;
    weighted_inter_element_space_ms = 50;
  };
  sidetone_frequency = 600;
}

-- The same keyer with these times and a buffer of eight places.
abbrev pub ready : Keyer whole
ready = record at_rest {
  profile = plain_profile;
  winkeyer_buffer = create (0 ∷ 0 ∷ 0 ∷ 0 ∷ 0 ∷ 0 ∷ 0 ∷ 0 ∷ []) 8;
}

ready-IsValid : IsValid ready.winkeyer_buffer
ready-IsValid =
    create-IsValid (0 ∷ 0 ∷ 0 ∷ 0 ∷ 0 ∷ 0 ∷ 0 ∷ 0 ∷ []) 8 (omega arith) (omega arith) (omega arith)

pub ready-Sends : Sends ready
unfolding create size is_buffered_stream lacking
ready-Sends = record {
  no_dit = refl;
  no_dah = refl;
  no_play = refl;
  in_state = refl;
  nothing_left = λ off. refl;
  valid = ready-IsValid;
  buffered = refl;
  lacks = refl;
  one_waits = λ some_wait. absurd (some_wait refl);
  no_clear = λ some_wait. absurd (some_wait refl);
}
