-- ===== src/Keyer/Sending.antt =====
-- src/keyer/: what the keyer sends of the bytes that it is fed. The daemon's `update` and
-- `winkeyer_data` come from two threads; they are steps here, one after the other, and no paddle is
-- ever pressed (`key_interface::is_paddle_pressed`).
pub mod Code
pub mod Updates
pub mod Front
pub mod Letters
pub mod Next
pub mod Ticks
pub mod Feeds
pub mod Order
pub mod Progress
pub mod Drains
pub mod Sent
pub mod Tests
use cwsd.Shared.{
  ℕ, zero, suc, ◌+◌, ◌≡◌, ◌≢◌, Bool, true, false, not, ◌&&◌, List, [], ◌∷◌, ◌++◌, Option, ltb, ◌==◌,
  if◌then◌else◌,
}
use cwsd.Buffer
use cwsd.Buffer.Inv.{IsValid}
use cwsd.Buffer.Refine.{contents}
use cwsd.Keyer.Floats.{Floats}
use cwsd.Keyer.CharPatterns.{get_char_pattern}
use cwsd.Keyer.Winkeyer.{parameter_count, is_winkeyer_command, is_winkeyer_buffered_command}
use cwsd.Keyer.Machine.{
  Keyer, Answers, Element, dit, dah, Call, dit_on, dah_on, StateType, idle, send_element, key_down,
  tune, play, same_state,
}
use cwsd.Keyer.States.{playing_element, update}
use cwsd.Keyer.Commands.{winkeyer_data}

-- The elements of a pattern that has `n` left, the first one highest.
unfoldable pub elements : ℕ → ℕ → List Element
elements bits zero = []
elements bits (suc n) = playing_element bits (suc n) ∷ elements bits n

-- The Morse code of a character, nothing for one that has none.
unfoldable pub code_of : ℕ → List Element
unfolding elements
code_of c = elim (get_char_pattern c) [
  | Option.none ↦ []
  | Option.some p ↦ elements p.sent_char_data p.sent_char_bits
]

-- The bytes after `c` that belong to it: the arguments of a command.
unfoldable pub arguments_of : ℕ → ℕ
arguments_of c = if is_winkeyer_command c then parameter_count c else 0

-- The Morse code of a stream of bytes, its first `skip` bytes being arguments. Commands and their
-- arguments stand for nothing.
unfoldable pub code : ℕ → List ℕ → List Element
unfolding code_of arguments_of
code skip [] = []
code (suc skip) (c ∷ cs) = code skip cs
code zero (c ∷ cs) = (if is_winkeyer_command c then [] else code_of c) ++ code (arguments_of c) cs

-- How many arguments the stream still lacks at its end.
unfoldable pub lacking : ℕ → List ℕ → ℕ
unfolding arguments_of
lacking skip [] = skip
lacking (suc skip) (c ∷ cs) = lacking skip cs
lacking zero (c ∷ cs) = lacking (arguments_of c) cs

-- A stream whose commands are all buffered ones.
unfoldable pub is_buffered_stream : ℕ → List ℕ → Bool
unfolding arguments_of
is_buffered_stream skip [] = true
is_buffered_stream (suc skip) (c ∷ cs) = is_buffered_stream skip cs
is_buffered_stream zero (c ∷ cs) =
    (if is_winkeyer_command c then is_winkeyer_buffered_command c else true)
    && is_buffered_stream (arguments_of c) cs

-- The elements among the hardware calls, which stand last one first, in the order of sending.
unfoldable pub keyed : List Call → List Element
keyed [] = []
keyed (dit_on ∷ cs) = keyed cs ++ dit ∷ []
keyed (dah_on ∷ cs) = keyed cs ++ dah ∷ []
keyed (c ∷ cs) = keyed cs

-- What a thread of the daemon does next: a call of `update`, with the clock in each round of its
-- loop, or one of `winkeyer_data`.
pub data Act : Type 0 where
  ticks : (ℕ → ℕ) → Act
  feeds : ℕ → Act

-- The clock's answers, with both paddles free.
abbrev pub no_paddles : (ℕ → ℕ) → ℕ → Answers
no_paddles clock n = record { current_ms = clock n; left = false; right = false }

-- The bytes fed, in order.
unfoldable pub fed : List Act → List ℕ
fed [] = []
fed (ticks clock ∷ acts) = fed acts
fed (feeds c ∷ acts) = c ∷ fed acts

-- The states of a keyer without paddles and without a memory that plays; all but `idle` only in
-- the WinKeyer's mode.
abbrev pub may_be : StateType → Bool → Bool
may_be idle enabled = true
may_be key_down enabled = false
may_be tune enabled = false
may_be play enabled = false
may_be s enabled = enabled

module _ {F : Floats} where
  unfoldable pub run : Keyer F → List Act → Keyer F
  run k [] = k
  run k (ticks clock ∷ acts) = run (update (no_paddles clock) k) acts
  run k (feeds c ∷ acts) = run (winkeyer_data c k) acts

  -- The bytes in the buffer, oldest first.
  abbrev pub queue : Keyer F → List ℕ
  queue k = contents 0 k.winkeyer_buffer

  -- What is left of the character that is being sent.
  abbrev pub pending : Keyer F → List Element
  pending k = elements k.playing_data k.playing_bit

  -- The elements sent, those left of the character, and those of the bytes in the buffer.
  abbrev pub account : Keyer F → List Element
  account k = (keyed k.calls ++ pending k) ++ code 0 (queue k)

  -- A byte that is not lost: the buffer has room, and the byte is no command to clear it.
  unfoldable pub is_kept : ℕ → Keyer F → Bool
  is_kept c k =
      not k.winkeyer_buffer.full
      && (if c == 0x0a
          then ltb 0 (k.winkeyer_waiting_for_arguments + k.winkeyer_remaining_buffered_arguments)
          else true)

  -- No byte of a run is lost.
  unfoldable pub keeps_all : Keyer F → List Act → Bool
  unfolding is_kept
  keeps_all k [] = true
  keeps_all k (ticks clock ∷ acts) = keeps_all (update (no_paddles clock) k) acts
  keeps_all k (feeds c ∷ acts) = is_kept c k && keeps_all (winkeyer_data c k) acts

  -- No paddle counts as pressed, no memory plays, the buffer is a valid stream of buffered commands
  -- and text, and what it lacks is what `winkeyer_data` waits for. Outside the WinKeyer's
  -- mode no element is left.
  pub record Sends (k : Keyer F) : Type 0 where
    pub no_dit : k.dit_buffered ≡ false
    pub no_dah : k.dah_buffered ≡ false
    pub no_play : k.is_playing ≡ false
    pub in_state : may_be k.current_state k.winkeyer_enabled ≡ true
    pub nothing_left : k.winkeyer_enabled ≡ false → k.playing_bit ≡ 0
    pub valid : IsValid k.winkeyer_buffer
    pub buffered : is_buffered_stream 0 (queue k) ≡ true
    pub lacks : lacking 0 (queue k) ≡ k.winkeyer_remaining_buffered_arguments
    pub one_waits :
        k.winkeyer_waiting_for_arguments ≢ 0 → k.winkeyer_remaining_buffered_arguments ≡ 0
    pub no_clear : k.winkeyer_waiting_for_arguments ≢ 0 → k.winkeyer_pending_command ≢ 0x0a
