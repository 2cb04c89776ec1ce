-- ===== src/Rigctld/Names.antt =====
-- src/rigctld_server.cpp: the names of VFOs and modes.
pub mod RoundTrip
use cwsd.Shared.{ℕ, Bool, true, false, List, [], ◌∷◌, ◌==◌, codes, same_text, if◌then◌else◌}
use cwsd.Rigctld.Hamlib.{Hamlib}

-- The entry of a value in a table of values and names, as a `switch` finds it.
unfoldable pub name_of : List (ℕ × List ℕ) → List ℕ → ℕ → List ℕ
name_of [] default v = default
name_of ((w, name) ∷ table) default v = if v == w then name else name_of table default v

-- The value of a name, as a chain of `strcmp` finds it.
unfoldable pub value_of : List (ℕ × List ℕ) → ℕ → List ℕ → ℕ
value_of [] default name = default
value_of ((w, other) ∷ table) default name =
    if same_text name other then w else value_of table default name

module _ (h : Hamlib) where
  -- The cases of the `switch` in `vfo_to_string`, and the comparisons of `vfo_from_string`.
  abbrev pub vfo_cases : List (ℕ × List ℕ)
  vfo_cases = (h.vfo_a, codes "VFOA") ∷ (h.vfo_b, codes "VFOB") ∷ (h.vfo_c, codes "VFOC") ∷ []

  abbrev pub vfo_tests : List (ℕ × List ℕ)
  vfo_tests = (h.vfo_a, codes "VFOA") ∷ (h.vfo_b, codes "VFOB") ∷ (h.vfo_c, codes "VFOC") ∷ []

  -- The cases of the `switch` in `mode_to_string`, and the comparisons of `mode_from_string`.
  abbrev pub mode_cases : List (ℕ × List ℕ)
  mode_cases =
      (h.mode_usb, codes "USB")
      ∷ (h.mode_lsb, codes "LSB")
      ∷ (h.mode_cw, codes "CW")
      ∷ (h.mode_rtty, codes "RTTY")
      ∷ (h.mode_rttyr, codes "RTTYR")
      ∷ (h.mode_am, codes "AM")
      ∷ (h.mode_fm, codes "FM")
      ∷ (h.mode_pktlsb, codes "PKTLSB")
      ∷ (h.mode_pktusb, codes "PKTUSB")
      ∷ (h.mode_pktfm, codes "PKTFM")
      ∷ []

  abbrev pub mode_tests : List (ℕ × List ℕ)
  mode_tests =
      (h.mode_usb, codes "USB")
      ∷ (h.mode_lsb, codes "LSB")
      ∷ (h.mode_cw, codes "CW")
      ∷ (h.mode_rtty, codes "RTTY")
      ∷ (h.mode_rttyr, codes "RTTYR")
      ∷ (h.mode_am, codes "AM")
      ∷ (h.mode_fm, codes "FM")
      ∷ (h.mode_pktlsb, codes "PKTLSB")
      ∷ (h.mode_pktusb, codes "PKTUSB")
      ∷ (h.mode_pktfm, codes "PKTFM")
      ∷ []

  unfoldable pub vfo_to_string : ℕ → List ℕ
  unfolding name_of
  vfo_to_string vfo = name_of vfo_cases (codes "UNKNOWN") vfo

  unfoldable pub vfo_from_string : List ℕ → ℕ
  unfolding value_of
  vfo_from_string name = value_of vfo_tests h.vfo_curr name

  unfoldable pub mode_to_string : ℕ → List ℕ
  unfolding name_of
  mode_to_string mode = name_of mode_cases (codes "UNKNOWN") mode

  unfoldable pub mode_from_string : List ℕ → ℕ
  unfolding value_of
  mode_from_string name = value_of mode_tests h.mode_all name

-- `split_to_string`
unfoldable pub split_to_string : Bool → List ℕ
split_to_string true = codes "1"
split_to_string false = codes "0"
