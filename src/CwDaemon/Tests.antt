-- ===== src/CwDaemon/Tests.antt =====
-- Messages of the cwdaemon protocol.
use cwsd.Shared.{
  ℕ, ◌≤◌, ◌<◌, ◌≡◌, ◌≢◌, ◌↔◌, ◌⊎◌, All, last_or, true, none, some, List, [], ◌∷◌, refl, arith,
  get_or, false, ◌++◌,
}
use cwsd.Strings.{to_u8, to_upper, c_string, is_space, is_digit, stoi}
use cwsd.CwDaemon.{
  to_winkeyer, argument, convert_text, convert_command, text_loop, text_round, char_round,
  is_tuning_command,
}
use cwsd.CwDaemon.Server.{receive, new_worker, turn, expire, start_tuning, is_escape}
use cwsd.CwDaemon.Server.Receive.{EndsNoLine, receive_lem}
use cwsd.CwDaemon.Server.Tuning.{Keys, Reading, serve, serve-Keys}
use cwsd.CwDaemon.Text.{TextStream, IsPlain, convert_text-TextStream}
use cwsd.CwDaemon.Sent.{morse, text_sent}
use cwsd.CwDaemon.KeyInterface.{
  Event, hears, updates, vanishes, after, key_called, new_interface, open_port, hear_all, start,
  update, hear, on_key_down, set_dtr, line_on, after_keyed,
}
use cwsd.CwDaemon.KeyInterface.Follows.{Step, does, takes, drive, line_follows}
use cwsd.Keyer.Machine.{Answers, key_goes_down, key_goes_up, send_element, same_state}
use cwsd.Keyer.States.KeyLine.{ticks}
use cwsd.Keyer.States.{enter, idle_enter}
use cwsd.Keyer.Commands.{feed, winkeyer_data, take_argument, take_command, execute, init}
use cwsd.Keyer.Winkeyer.{is_winkeyer_command, is_winkeyer_buffered_command, parameter_count}
use cwsd.Keyer.Tests.{ready, ready-Sends}
use cwsd.Keyer.Sending.{fed, keyed, account, run}
use cwsd.Keyer.Sending.Sent.{all_ticks}
use cwsd.Keyer.Sending.Tests.{two_letters, two_letters_kept, two_letters_enough, seconds}
use cwsd.CwDaemon.Commands.{to_winkeyer_throws, to_winkeyer_tunes}

-- Two steps faster, a letter, and one step slower.
convert_text-TextStream_example : TextStream 20 (0x1c ∷ 24 ∷ b'A' ∷ 0x1c ∷ 22 ∷ 0x1c ∷ 20 ∷ []) 20
unfolding convert_text text_loop text_round to_upper
convert_text-TextStream_example =
    convert_text-TextStream (b'+' ∷ b'+' ∷ b'a' ∷ b'-' ∷ 0 ∷ []) 20 (omega arith)

plain : (c : ℕ) → 32 ≤ c → c < 128 → c ≢ b'-' → c ≢ b'+' → c ≢ b'~' → IsPlain c
plain c a b m p g = record { printable = a; ascii = b; no_minus = m; no_plus = p; no_gap = g }

two_letters_text : fed two_letters ≡ convert_text (b'a' ∷ b't' ∷ [] ++ 0 ∷ 9 ∷ []) 20
unfolding fed convert_text text_loop text_round char_round to_upper
two_letters_text = refl

-- The text `at`, of which the first letter is fed before a call of `update`.
text_sent_example :
    keyed (run (run ready two_letters) (all_ticks (seconds 1 110))).calls
    ≡ account ready ++ morse (b'A' ∷ b'T' ∷ [])
unfolding to_upper
text_sent_example =
    text_sent (b'a' ∷ b't' ∷ []) (9 ∷ []) 20 two_letters (seconds 1 110) ready
      (
        plain b'a' (omega arith) (omega arith) (omega arith) (omega arith) (omega arith),
        (plain b't' (omega arith) (omega arith) (omega arith) (omega arith) (omega arith), tt),
      )
      two_letters_text ready-Sends refl two_letters_kept two_letters_enough

-- A speed command with no number.
abbrev no_number : List ℕ
no_number = 27 ∷ b'2' ∷ 0 ∷ []

to_winkeyer_throws_example :
    let letter = get_or no_number 1 0 in
    (to_winkeyer no_number 20 ≡ none) ↔ (
      (get_or no_number 0 0 ≡ 27)
      × ((letter ≡ b'2')
          ⊎ ((letter ≡ b'7') ⊎ ((letter ≡ b'c') ⊎ ((letter ≡ b'u') ⊎ (letter ≡ b'd')))))
      × (stoi (c_string (0 ∷ [])) ≡ none))
to_winkeyer_throws_example = to_winkeyer_throws no_number 20

-- A key-down while the device is there, a failed attempt to open it again, and one that succeeds.
abbrev some_events : List Event
some_events =
    hears key_goes_down ∷ updates (some true) ∷ updates none ∷ vanishes ∷ hears key_goes_up ∷ []

after_keyed_example : key_called some_events ≡ true
unfolding after hear on_key_down set_dtr update open_port
after_keyed_example = after_keyed some_events refl

-- A letter for the buffer, the left paddle at 0.1 s, and a call half a second later.
abbrev some_steps : List Step
some_steps =
    takes b'E'
    ∷ does (ticks (λ n. record { current_ms = 100; left = true; right = false }))
    ∷ does (ticks (λ n. record { current_ms = 600; left = false; right = false }))
    ∷ []

abbrev at_once : Answers
at_once = record { current_ms = 0; left = false; right = false }

line_follows_example :
    let k' = drive (start 24 at_once ready) some_steps in
    line_on (hear_all k'.calls (open_port (some true) new_interface).1)
    ≡ same_state k'.current_state send_element
unfolding start feed winkeyer_data take_argument take_command execute init enter idle_enter
    is_winkeyer_command is_winkeyer_buffered_command parameter_count
line_follows_example = line_follows 24 at_once ready true some_steps refl refl (refl, tt)

-- Three seconds of tuning.
abbrev tune : List ℕ
tune = 27 ∷ b'c' ∷ b'3' ∷ 0 ∷ []

tune_sent : to_winkeyer tune 20 ≡ some (0x0b ∷ 1 ∷ 3 ∷ [])
unfolding to_winkeyer convert_command argument stoi c_string is_space is_digit to_u8
    is_tuning_command
tune_sent = refl

to_winkeyer_tunes_example :
    (is_tuning_command (0x0b ∷ 1 ∷ 3 ∷ []) ≡ true)
    ↔ ((get_or tune 0 0 ≡ 27) × (get_or tune 1 0 ≡ b'c'))
to_winkeyer_tunes_example = to_winkeyer_tunes tune 20 (omega arith) tune_sent

-- A line end goes.
receive_example :
    (kept : List ℕ) × (after : List ℕ) × (b'e' ∷ b'\n' ∷ [] ≡ b'e' ∷ kept ++ after)
    × All (λ d. (d ≡ b'\n') ⊎ ((d ≡ b'\r') ⊎ (d ≡ b' '))) after
    × EndsNoLine (last_or 0 kept)
    × (receive (b'e' ∷ b'\n' ∷ []) ≡ b'e' ∷ kept ++ 0 ∷ [])
receive_example = receive_lem b'e' (b'\n' ∷ [])

-- The tuning starts at 1 s, is still on at 2 s, and is over after 4 s.
abbrev three_turns : List Reading
three_turns =
    record { message = some tune; speed = 20; clock = 1000; later = 1000 }
    ∷ record { message = none; speed = 20; clock = 2000; later = 2000 }
    ∷ record { message = none; speed = 20; clock = 4001; later = 4001 }
    ∷ []

serve-Keys_example : Keys false (0x0b ∷ 1 ∷ 0x0b ∷ 0 ∷ []) false
unfolding serve turn expire start_tuning is_escape to_winkeyer convert_command argument stoi
    c_string is_space is_digit to_u8 is_tuning_command
serve-Keys_example =
    serve-Keys three_turns new_worker (omega arith, (omega arith, (omega arith, tt)))
