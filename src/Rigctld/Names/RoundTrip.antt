-- ===== src/Rigctld/Names/RoundTrip.antt =====
-- Names and values of VFOs and modes are the same in both directions.
use cwsd.Shared.{ℕ, ◌≢◌, Bool, true, false, List, [], ◌∷◌, codes, same_text, if◌then◌else◌, All}
use cwsd.Rigctld.Hamlib.{Hamlib}

-- The values of a table are all different.
abbrev pub Distinct : List (ℕ × List ℕ) → Type 0
Distinct [] = Unit
Distinct ((v, name) ∷ table) = All (λ e. e.0 ≢ v) table × Distinct table

-- Whether a name is in a table.
abbrev pub has_name : List (ℕ × List ℕ) → List ℕ → Bool
has_name [] name = false
has_name ((v, other) ∷ table) name = if same_text name other then true else has_name table name

-- The names of the modes and of the VFOs.
abbrev pub mode_names : List (List ℕ)
mode_names =
    codes "USB"
    ∷ codes "LSB"
    ∷ codes "CW"
    ∷ codes "RTTY"
    ∷ codes "RTTYR"
    ∷ codes "AM"
    ∷ codes "FM"
    ∷ codes "PKTLSB"
    ∷ codes "PKTUSB"
    ∷ codes "PKTFM"
    ∷ []

abbrev pub vfo_names : List (List ℕ)
vfo_names = codes "VFOA" ∷ codes "VFOB" ∷ codes "VFOC" ∷ []
