-- ===== src/Keyer/Morse.antt =====
-- src/keyer/morse.h and morse.cpp: the style of the code and the times that follow from it; and
-- `profile` of src/keyer/keyer.h with its methods in keyer.cpp.
use cwsd.Shared.{ℕ, ◌+◌, ◌*◌, Bool, true, if◌then◌else◌}
use cwsd.Keyer.Floats.{Floats}

-- `code_timings`, less `paddle_switchpoint_ms`, which nothing sets or reads.
pub record CodeTimings (F : Floats) : Type 0 where
  pub dit_ms : F.Float
  pub dah_ms : F.Float
  pub space_between_chars_ms : F.Float
  pub space_between_words_ms : F.Float
  pub weighted_dit_ms : F.Float
  pub weighted_dah_ms : F.Float
  pub weighted_inter_element_space_ms : F.Float

-- `code_style`
pub record CodeStyle (F : Floats) : Type 0 where
  pub impulses_between_words : ℕ
  pub impulses_between_characters : ℕ
  pub autospace_enabled : Bool
  pub dah_dit_ratio : F.Float
  pub weighting : F.Float
  pub extra_letterspace_percent : F.Float
  pub keying_compensation_ms : F.Float
  pub character_wpm : F.Float
  pub farnsworth_wpm : F.Float
  pub paddle_switchpoint : F.Float
  pub speed_low : F.Float
  pub speed_high : F.Float
  pub dah_dit_ratio_low : F.Float
  pub dah_dit_ratio_high : F.Float
  pub weighting_low : F.Float
  pub weighting_high : F.Float
  pub extra_letterspace_percent_low : F.Float
  pub extra_letterspace_percent_high : F.Float

-- `profile`; `sidetone` and `ptt` do not reach the timings.
pub record Profile (F : Floats) : Type 0 where
  pub style : CodeStyle F
  pub timings : CodeTimings F
  pub sidetone_frequency : ℕ

module _ (F : Floats) where
  open F use {Float, of_ℕ, literal, plus, minus, times, over, abs, at_most}

  -- The members' initial values.
  pub default_style : CodeStyle F
  default_style = record {
    impulses_between_words = 6;
    impulses_between_characters = 3;
    autospace_enabled = true;
    dah_dit_ratio = literal 30 1;
    weighting = literal 500 1;
    extra_letterspace_percent = literal 0 1;
    keying_compensation_ms = literal 0 1;
    character_wpm = literal 240 1;
    farnsworth_wpm = literal 240 1;
    paddle_switchpoint = literal 500 1;
    speed_low = literal 200 1;
    speed_high = literal 400 1;
    dah_dit_ratio_low = literal 30 1;
    dah_dit_ratio_high = literal 30 1;
    weighting_low = literal 100 1;
    weighting_high = literal 900 1;
    extra_letterspace_percent_low = literal 0 1;
    extra_letterspace_percent_high = literal 0 1;
  }

  -- `space_impulses_in_paris`: 4 character spaces and a word space.
  pub space_impulses_in_paris : CodeStyle F → Float
  space_impulses_in_paris s = of_ℕ (4 * s.impulses_between_characters + s.impulses_between_words)

  -- `non_space_impulses_in_paris`: 10 dots, 9 silent dots, 4 dashes.
  pub non_space_impulses_in_paris : CodeStyle F → Float
  non_space_impulses_in_paris s = plus (of_ℕ (10 + 9)) (times (of_ℕ 4) s.dah_dit_ratio)

  -- `map`: linear interpolation, clamped to the bounds.
  pub interpolate : Float → Float → Float → Float → Float → Float
  interpolate speed speed_min speed_max value_min value_max =
      if at_most (abs (minus speed_max speed_min)) (literal 1 3)
      then value_min
      else if at_most speed speed_min
      then value_min
      else if at_most speed_max speed
      then value_max
      else let alpha = over (minus speed speed_min) (minus speed_max speed_min) in
        plus value_min (times alpha (minus value_max value_min))

  -- What `calculate_timings` does to the style that it is called on.
  pub adapt_style : CodeStyle F → CodeStyle F
  adapt_style s = record s {
    dah_dit_ratio =
        interpolate s.character_wpm s.speed_low s.speed_high s.dah_dit_ratio_low
          s.dah_dit_ratio_high;
    extra_letterspace_percent =
        interpolate s.character_wpm s.speed_low s.speed_high s.extra_letterspace_percent_low
          s.extra_letterspace_percent_high;
  }

  -- What it returns, from the style that it leaves.
  pub timings_of : CodeStyle F → CodeTimings F
  unfolding space_impulses_in_paris non_space_impulses_in_paris
  timings_of s =
      let minute = literal 600 1 in
      let second = literal 10000 1 in
      let sounding = non_space_impulses_in_paris s in
      let silent = space_impulses_in_paris s in
      let impulses_per_minute = times s.character_wpm (plus sounding silent) in
      let dit = times (over minute impulses_per_minute) second in
      let dah = times dit s.dah_dit_ratio in
      let on_ms = times (times sounding s.farnsworth_wpm) dit in
      let off_ms = minus (times minute second) on_ms in
      let pause = over off_ms (times silent s.farnsworth_wpm) in
      let weight = over s.weighting (literal 500 1) in
      let weighted_dit = plus (times dit weight) s.keying_compensation_ms in
      let weighted_dah = plus (times dah weight) s.keying_compensation_ms in
      let space =
        minus (over (times dit (minus (of_ℕ 100) s.weighting)) (literal 500 1))
          s.keying_compensation_ms in
      record {
        dit_ms = dit;
        dah_ms = dah;
        space_between_chars_ms = times (of_ℕ s.impulses_between_characters) pause;
        space_between_words_ms = times (of_ℕ s.impulses_between_words) pause;
        weighted_dit_ms = weighted_dit;
        weighted_dah_ms = weighted_dah;
        weighted_inter_element_space_ms = plus space (
            over (times (times (literal 30 1) weighted_dit) s.extra_letterspace_percent)
              (literal 1000 1));
      }

  -- `timings = style.calculate_timings()`
  unfoldable pub update_timings : Profile F → Profile F
  update_timings p =
      let style = adapt_style p.style in record p { style = style; timings = timings_of style }

  unfoldable pub profile_set_speed : Profile F → Float → Profile F
  unfolding update_timings
  profile_set_speed p wpm =
      update_timings
        (record p { style = record (p.style) { character_wpm = wpm; farnsworth_wpm = wpm } })

  unfoldable pub profile_set_dah_dit_ratio : Profile F → Float → Profile F
  unfolding update_timings
  profile_set_dah_dit_ratio p ratio =
      update_timings (record p { style = record (p.style) { dah_dit_ratio = ratio } })

  unfoldable pub profile_set_weighting : Profile F → ℕ → Profile F
  unfolding update_timings
  profile_set_weighting p weighting =
      update_timings (record p { style = record (p.style) { weighting = of_ℕ weighting } })

  unfoldable pub profile_set_letterspace : Profile F → ℕ → Profile F
  unfolding update_timings
  profile_set_letterspace p percent =
      update_timings
        (record p { style = record (p.style) { extra_letterspace_percent = of_ℕ percent } })

  unfoldable pub profile_set_keying_compensation : Profile F → ℕ → Profile F
  unfolding update_timings
  profile_set_keying_compensation p ms =
      update_timings (record p { style = record (p.style) { keying_compensation_ms = of_ℕ ms } })

  -- `set_autospace`, which leaves the timings.
  unfoldable pub profile_set_autospace : Profile F → Bool → Profile F
  profile_set_autospace p enable = record p {
    style = record (p.style) { autospace_enabled = enable };
  }

  -- `set_speed_low` and `set_speed_high`
  unfoldable pub profile_set_speed_low : Profile F → Float → Profile F
  unfolding update_timings
  profile_set_speed_low p wpm =
      update_timings (record p { style = record (p.style) { speed_low = wpm } })

  unfoldable pub profile_set_speed_high : Profile F → Float → Profile F
  unfolding update_timings
  profile_set_speed_high p wpm =
      update_timings (record p { style = record (p.style) { speed_high = wpm } })

  -- `set_dah_dit_ratio_lo` and `set_dah_dit_ratio_hi`
  unfoldable pub profile_set_dah_dit_ratio_lo : Profile F → Float → Profile F
  unfolding update_timings
  profile_set_dah_dit_ratio_lo p ratio =
      update_timings (record p { style = record (p.style) { dah_dit_ratio_low = ratio } })

  unfoldable pub profile_set_dah_dit_ratio_hi : Profile F → Float → Profile F
  unfolding update_timings
  profile_set_dah_dit_ratio_hi p ratio =
      update_timings (record p { style = record (p.style) { dah_dit_ratio_high = ratio } })

  -- `set_weighting_lo` and `set_weighting_hi`
  unfoldable pub profile_set_weighting_lo : Profile F → ℕ → Profile F
  unfolding update_timings
  profile_set_weighting_lo p weight =
      update_timings (record p { style = record (p.style) { weighting_low = of_ℕ weight } })

  unfoldable pub profile_set_weighting_hi : Profile F → ℕ → Profile F
  unfolding update_timings
  profile_set_weighting_hi p weight =
      update_timings (record p { style = record (p.style) { weighting_high = of_ℕ weight } })

  -- `set_letterspace_lo` and `set_letterspace_hi`
  unfoldable pub profile_set_letterspace_lo : Profile F → ℕ → Profile F
  unfolding update_timings
  profile_set_letterspace_lo p percent =
      update_timings
        (record p { style = record (p.style) { extra_letterspace_percent_low = of_ℕ percent } })

  unfoldable pub profile_set_letterspace_hi : Profile F → ℕ → Profile F
  unfolding update_timings
  profile_set_letterspace_hi p percent =
      update_timings
        (record p { style = record (p.style) { extra_letterspace_percent_high = of_ℕ percent } })
