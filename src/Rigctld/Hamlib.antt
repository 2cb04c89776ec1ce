-- ===== src/Rigctld/Hamlib.antt =====
-- What src/rigctld_server.cpp uses of the hamlib library: its constants and functions of values are
-- `Hamlib`, the rig's answers are `Answers`, and the calls that change the rig are `RigCall`.
use cwsd.Shared.{ℕ, Bool, Option, List}
use cwsd.Strings.{ℤ}

-- `Float` stands for `float` and `double`; `print_float` is `std::to_string`, and `parse_float` is
-- `std::stod` and `std::stof`, `none` where they throw.
pub record Hamlib : Type 1 where
  pub Float : Type 0
  pub zero_float : Float
  pub print_float : Float → List ℕ
  pub parse_float : List ℕ → Option Float
  pub vfo_a : ℕ
  pub vfo_b : ℕ
  pub vfo_c : ℕ
  pub vfo_curr : ℕ
  pub vfo_none : ℕ
  pub mode_usb : ℕ
  pub mode_lsb : ℕ
  pub mode_cw : ℕ
  pub mode_rtty : ℕ
  pub mode_rttyr : ℕ
  pub mode_am : ℕ
  pub mode_fm : ℕ
  pub mode_pktlsb : ℕ
  pub mode_pktusb : ℕ
  pub mode_pktfm : ℕ
  pub mode_all : ℕ
  pub parse_level : List ℕ → ℕ
  pub level_is_float : ℕ → Bool
  pub level_agc : ℕ
  pub agc_off : ℤ
  pub agc_fast : ℤ
  pub model_ic7300 : ℕ

-- `value_t`, by the member that is used.
pub data Value (h : Hamlib) : Type 0 where
  float : h.Float → Value h
  int : ℤ → Value h

-- `freq_range_t`, as far as it is printed.
pub record FreqRange (h : Hamlib) : Type 0 where
  pub startf : h.Float
  pub endf : h.Float
  pub modes : ℕ
  pub low_power : ℤ
  pub high_power : ℤ
  pub vfo : ℕ
  pub ant : ℕ

-- `tuning_step_list` and `filter_list`: the modes, and the step or the width.
pub record ModesWith : Type 0 where
  pub modes : ℕ
  pub amount : ℤ

-- What `dump_state` reads of `rig->caps` and `rig->state`, the lengths of the arrays, and the tests
-- for the ends of the lists that are macros of the library.
pub record Capabilities (h : Hamlib) : Type 0 where
  pub rig_model : ℕ
  pub rx_range_list : List (FreqRange h)
  pub tx_range_list : List (FreqRange h)
  pub tuning_steps : List ModesWith
  pub filters : List ModesWith
  pub frqrangesiz : ℕ
  pub tslstsiz : ℕ
  pub fltlstsiz : ℕ
  pub maxdblstsiz : ℕ
  pub is_frng_end : FreqRange h → Bool
  pub is_ts_end : ModesWith → Bool
  pub is_flt_end : ModesWith → Bool
  pub max_rit : ℤ
  pub max_xit : ℤ
  pub max_ifshift : ℤ
  pub announces : ℤ
  pub preamp : List ℤ
  pub attenuator : List ℤ
  pub has_get_func : ℕ
  pub has_set_func : ℕ
  pub has_get_level : ℕ
  pub has_set_level : ℕ
  pub has_get_parm : ℕ
  pub has_set_parm : ℕ

-- What the `rig_get_` functions leave in their arguments; `none` for the split and an error code
-- for a level stand for a result that is not `RIG_OK`.
pub record Answers (h : Hamlib) : Type 0 where
  pub powerstat : ℕ
  pub lock_mode : ℤ
  pub freq : h.Float
  pub split : Option (Bool × ℕ)
  pub ptt : ℤ
  pub mode : ℕ
  pub width : ℤ
  pub level_error : ℕ → Option ℤ
  pub level_float : ℕ → h.Float
  pub level_int : ℕ → ℤ
  pub set_level_result : ℤ
  pub rit : ℤ
  pub capabilities : Capabilities h

-- The calls of `rig_set_` functions.
pub data RigCall (h : Hamlib) : Type 0 where
  set_powerstat : ℤ → RigCall h
  set_split : Bool → ℕ → RigCall h
  set_ptt : ℤ → RigCall h
  set_vfo : ℕ → RigCall h
  set_mode : ℕ → ℤ → RigCall h
  set_freq : h.Float → RigCall h
  set_level : ℕ → Value h → RigCall h
