-- ===== src/Rigctld/Tests.antt =====
-- Lines of clients and turns of the worker, with a library of our own in place of hamlib, whose
-- floats are numbers.
use cwsd.Shared.{
  ℕ, ◌≡◌, ◌≢◌, ◌↔◌, refl, Bool, true, false, Option, none, some, List, [], ◌∷◌, All, codes, print_ℕ,
  length, arith, ◌==◌,
}
use cwsd.Strings.{ℤ, pos, negsuc, stoi, c_string, is_space, is_digit}
use cwsd.StringUtil.{trim, white_space, one_of, starts_with, split_string}
use cwsd.Rigctld.Hamlib.{Hamlib, Capabilities, Answers, RigCall, set_level, int}
use cwsd.Rigctld.Interpret.{interpret_command, undefined}
use cwsd.Rigctld.Interpret.Errors.{LacksWidth, interpret_command_undefined}
use cwsd.Rigctld.Interpret.Agc.{LeavesAgc, interpret_command_agc}
use cwsd.Rigctld.Client.{
  RigctldClient, bytes, refused, written, Serving, out_of_fuel, read_from_client,
}
use cwsd.Rigctld.Client.Chunks.{read_from_client-appended, read_from_client_ends}
use cwsd.Rigctld.Poll.{Report, Opening}
use cwsd.Rigctld.Clients.{Clients}
use cwsd.Rigctld.ByKey.{read_at}
use cwsd.Rigctld.ByKey.Same.{stored, read_at-stored}
use cwsd.Rigctld.Work.{Happening, work, fresh_server}
use cwsd.Rigctld.Work.InStep.{Orderly, work-Orderly}

abbrev pub number_of : Option ℤ → Option ℕ
number_of none = none
number_of (some (pos n)) = some n
number_of (some (negsuc n)) = none

abbrev pub small : Hamlib
small = record {
  Float = ℕ;
  zero_float = 0;
  print_float = print_ℕ;
  parse_float = λ text. number_of (stoi text);
  vfo_a = 1;
  vfo_b = 2;
  vfo_c = 4;
  vfo_curr = 8;
  vfo_none = 0;
  mode_usb = 1;
  mode_lsb = 2;
  mode_cw = 3;
  mode_rtty = 4;
  mode_rttyr = 5;
  mode_am = 6;
  mode_fm = 7;
  mode_pktlsb = 8;
  mode_pktusb = 9;
  mode_pktfm = 10;
  mode_all = 11;
  parse_level = λ text. length text;
  level_is_float = λ level. false;
  level_agc = 3;
  agc_off = pos 0;
  agc_fast = pos 2;
  model_ic7300 = 3073;
}

abbrev pub nothing_special : Capabilities small
nothing_special = record {
  rig_model = 3073;
  rx_range_list = [];
  tx_range_list = [];
  tuning_steps = record { modes = 4; amount = pos 10 } ∷ record { modes = 0; amount = pos 0 } ∷ [];
  filters = [];
  frqrangesiz = 30;
  tslstsiz = 20;
  fltlstsiz = 60;
  maxdblstsiz = 8;
  is_frng_end = λ r. false;
  is_ts_end = λ m. m.modes == 0;
  is_flt_end = λ m. m.modes == 0;
  max_rit = pos 9999;
  max_xit = pos 0;
  max_ifshift = pos 0;
  announces = pos 0;
  preamp = pos 10 ∷ pos 0 ∷ [];
  attenuator = [];
  has_get_func = 31;
  has_set_func = 0;
  has_get_level = 0;
  has_set_level = 0;
  has_get_parm = 0;
  has_set_parm = 0;
}

abbrev silent_rig : List (RigCall small) → Answers small
silent_rig calls = record {
  powerstat = 1;
  lock_mode = pos 0;
  freq = 7030;
  split = none;
  ptt = pos 0;
  mode = 3;
  width = pos 500;
  level_error = λ level. none;
  level_float = λ level. 0;
  level_int = λ level. pos 5;
  set_level_result = pos 0;
  rit = pos 0;
  capabilities = nothing_special;
}

abbrev newcomer : Serving small
newcomer = record { client = record { fd = 7; read_buffer = []; write_buffer = [] }; calls = [] }

interpret_command_undefined_example :
    (interpret_command small 3073 (silent_rig []) (codes "M USB") ≡ undefined)
    ↔ LacksWidth small (trim (codes "M USB") white_space)
interpret_command_undefined_example =
    interpret_command_undefined small (codes "M USB") 3073 (silent_rig [])

interpret_command_agc_example : All (LeavesAgc small) (set_level 3 (int (pos 2)) ∷ [])
unfolding interpret_command trim one_of starts_with split_string stoi c_string is_space is_digit
interpret_command_agc_example =
    interpret_command_agc small (λ e. cc) (codes "L AGC 0") (silent_rig []) refl

-- After "f" has been answered, with a "F" that waits for the rest of its line.
abbrev halfway : Serving small
halfway = record {
  client = record { fd = 7; read_buffer = codes "F"; write_buffer = codes "7030\n" };
  calls = [];
}

read_from_client-appended_example :
    read_from_client small 3073 silent_rig (written 7) false (bytes (codes " 14060\n")) halfway
    ≡ read_from_client small 3073 silent_rig
        (written 7)
        false
        (bytes (codes "f\nF 14060\n"))
        newcomer
unfolding read_from_client trim one_of starts_with split_string stoi c_string is_space is_digit
    print_ℕ
read_from_client-appended_example =
    read_from_client-appended small 3073 silent_rig (written 7) newcomer halfway (codes "f\nF")
      (codes " 14060\n") (ground arith) (ground arith) refl

read_from_client_ends_example :
    read_from_client small 3073 silent_rig (written 7) false (bytes (codes "f\nF 14060\n")) newcomer
    ≢ out_of_fuel
read_from_client_ends_example =
    read_from_client_ends small 3073 silent_rig (written 7) newcomer false
      (bytes (codes "f\nF 14060\n"))

abbrev nothing_wrong : Opening
nothing_wrong = record {
  inited = true;
  speed_set = true;
  rts_set = true;
  dtr_set = true;
  opened = true;
}

abbrev report : Bool → Bool → List ℕ → Report
report pollin pollout text = record {
  revents = record {
    pollin = pollin;
    pollout = pollout;
    pollerr = false;
    pollhup = false;
    pollnval = false;
  };
  received = bytes text;
  wrote = written 3;
  flush = written 7;
  messages = [];
}

-- A client comes under the descriptor 7, asks for the frequency, and is sent three bytes of it.
abbrev day : List Happening
day =
    (record { opening = nothing_wrong; accepted = pos 7; reports = report true false [] ∷ [] })
    ∷ (record {
      opening = nothing_wrong;
      accepted = pos 7;
      reports = report false false [] ∷ report true false (codes "f\n") ∷ [];
    })
    ∷ (record {
      opening = nothing_wrong;
      accepted = pos 7;
      reports = report false false [] ∷ report false true [] ∷ [];
    })
    ∷ []

work-Orderly_example :
    Orderly small 5 (work small 5 3073 0 silent_rig day (fresh_server small 5 3073 0 silent_rig))
work-Orderly_example =
    work-Orderly small 5 3073 0 silent_rig day
      (((λ e. cc), refl), (((λ e. cc), refl), (((λ e. cc), refl), tt)))

abbrev client_of : ℕ → RigctldClient
client_of fd = record { fd = fd; read_buffer = codes "f"; write_buffer = [] }

-- Two clients, with half a line each.
abbrev two_clients : Clients
two_clients = (7, client_of 7) ∷ (8, client_of 8) ∷ []

-- The second one ends its line.
read_at-stored_example :
    read_at small refused 8 3073 silent_rig false
      (bytes (codes "\n"))
      (record { clients = two_clients; calls = [] })
    ≡ stored small 8 two_clients (
        read_from_client small 3073 silent_rig refused false
          (bytes (codes "\n"))
          (record { client = client_of 8; calls = [] }))
read_at-stored_example =
    read_at-stored small refused 8 two_clients refl 3073 silent_rig false (bytes (codes "\n")) []
      refl
