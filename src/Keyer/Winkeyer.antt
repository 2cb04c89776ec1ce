-- ===== src/Keyer/Winkeyer.antt =====
-- src/keyer/keyer_state_winkeyer.cpp: the WinKeyer's command bytes.
use cwsd.Shared.{ℕ, Bool, ◌&&◌, List, [], ◌∷◌, get_or, leb}

abbrev pub winkey_commands_parameter_count : List ℕ
winkey_commands_parameter_count =
    1 ∷ 1 ∷ 1 ∷ 1 ∷ 2 ∷ 3 ∷ 1 ∷ 0 ∷ 0 ∷ 1 ∷ 0 ∷ 1 ∷ 1 ∷ 1 ∷ 1 ∷ 15 ∷ 1 ∷ 1 ∷ 1 ∷ 0 ∷ 1 ∷ 0 ∷ 1 ∷ 1
    ∷ 1 ∷ 1 ∷ 1 ∷ 2 ∷ 1 ∷ 1 ∷ 0 ∷ 0 ∷ []

-- `winkey_commands_parameter_count[c]`, which is read for commands only.
unfoldable pub parameter_count : ℕ → ℕ
parameter_count c = get_or winkey_commands_parameter_count c 0

unfoldable pub is_winkeyer_command : ℕ → Bool
is_winkeyer_command c = leb c 0x1f

unfoldable pub is_winkeyer_buffered_command : ℕ → Bool
is_winkeyer_buffered_command c = leb c 0x1f && leb 0x18 c
