-- ===== src/CwDaemon/Commands.antt =====
-- Escape commands: what `to_winkeyer` makes of each, when it throws, and which start to tune.
use cwsd.Shared.{
  ℕ, ◌+◌, ◌^◌, ◌≤◌, ◌<◌, ◌≡◌, ◌↔◌, ◌⊎◌, drop, inl, inr, refl, true, false, none, some, List, [],
  ◌∷◌, get_or, arith, add_u8, Option-cases,
}
use cwsd.Strings.{ℤ, pos, negsuc, to_u8, stoi, c_string}
use cwsd.CwDaemon.{
  argument, clamp_weight, with_argument, takes_argument, convert_command, to_winkeyer,
  is_tuning_command,
}
use cwsd.CwDaemon.Text.{TextStream, ends, char, speed, convert_text-TextStream}

-- `to_winkeyer` throws exactly on ESC with one of the letters 2, 7, c, u and d, and no number in
-- the range of `int` behind the letter.
pub to_winkeyer_throws :
    (input : List ℕ) (v : ℕ)
    → let letter = get_or input 1 0 in
      (to_winkeyer input v ≡ none) ↔ (
        (get_or input 0 0 ≡ 27)
        × ((letter ≡ b'2')
            ⊎ ((letter ≡ b'7') ⊎ ((letter ≡ b'c') ⊎ ((letter ≡ b'u') ⊎ (letter ≡ b'd')))))
        × (stoi (c_string (drop 2 input)) ≡ none))
unfolding to_winkeyer convert_command takes_argument argument
to_winkeyer_throws input v = ground arith

to_u8-lt : (n : ℤ) → to_u8 n < 2 ^ 8
unfolding to_u8
to_u8-lt (pos n) = omega arith
to_u8-lt (negsuc n) = omega arith

-- The weight that the command ESC 7 with a number sets lies between 10 and 90, and is 50 more than
-- the number where that lies between -40 and 40.
pub to_winkeyer_weight :
    (input : List ℕ) (v : ℕ) {n : ℤ}
    → get_or input 0 0 ≡ 27
    → get_or input 1 0 ≡ b'7'
    → argument input ≡ some n
    → (w : ℕ) × (to_winkeyer input v ≡ some (0x03 ∷ w ∷ []))
      × (10 ≤ w)
      × (w ≤ 90)
      × ((m : ℕ) → n ≡ pos m → m ≤ 40 → w ≡ 50 + m)
      × ((m : ℕ) → n ≡ negsuc m → m < 40 → w + m + 1 ≡ 50)
unfolding to_winkeyer convert_command to_u8 clamp_weight
to_winkeyer_weight input v {n} esc letter parsed = (
  clamp_weight (add_u8 50 (to_u8 n)),
  ground arith,
  ground arith,
  ground arith,
  λ m e h. rw (e, to_u8) (ground arith),
  λ m e h. rw (e, to_u8) (ground arith),
)

-- The commands' bytes start to tune only under the letter `c`.
with_argument_tunes :
    (letter v n : ℕ) → (is_tuning_command (with_argument letter v n) ≡ true) ↔ (letter ≡ b'c')
unfolding with_argument is_tuning_command
with_argument_tunes letter v n = ground arith

-- No text does.
pub TextStream-tunes :
    {v w : ℕ} {bytes : List ℕ} → TextStream v bytes w → is_tuning_command bytes ≡ false
unfolding is_tuning_command
TextStream-tunes (ends e) = refl
TextStream-tunes (char lo hi s) = ground arith
TextStream-tunes (speed e h s) = ground arith

none_tunes : is_tuning_command [] ≡ false
unfolding is_tuning_command
none_tunes = refl

clear_tunes : is_tuning_command (0x0a ∷ []) ≡ false
unfolding is_tuning_command
clear_tunes = refl

convert_command_tunes :
    (input : List ℕ) (v : ℕ) (out : List ℕ)
    → convert_command input v ≡ some out
    → (is_tuning_command out ≡ true) ↔ (get_or input 1 0 ≡ b'c')
unfolding convert_command
convert_command_tunes input v out e = elim (Option-cases (argument input)) [
  | inl missing ↦ ground (arith, missing, none_tunes, clear_tunes)
  | inr (n, p) ↦
      ground (arith, p, none_tunes, clear_tunes, with_argument_tunes (get_or input 1 0) v (to_u8 n))
]

-- Where nothing is thrown and the speed is a byte, the result is taken for a tuning command by
-- `is_tuning_command` exactly if the message is the command ESC c.
pub to_winkeyer_tunes :
    (input : List ℕ) (v : ℕ) {out : List ℕ}
    → v < 2 ^ 8
    → to_winkeyer input v ≡ some out
    → (is_tuning_command out ≡ true) ↔ ((get_or input 0 0 ≡ 27) × (get_or input 1 0 ≡ b'c'))
unfolding to_winkeyer
to_winkeyer_tunes input v {out} small e = ground (
  arith,
  TextStream-tunes (convert_text-TextStream input v small),
  convert_command_tunes input v out,
)
