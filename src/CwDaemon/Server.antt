-- ===== src/CwDaemon/Server.antt =====
-- src/cwdaemon_server.cpp, `client_worker`, and `receive` of src/udp_server.cpp: from datagrams to
-- the bytes that the keyer is fed.
pub mod Tuning
pub mod Receive
use cwsd.Shared.{
  ℕ, ◌+◌, ◌-◌, ◌*◌, ◌%◌, ◌^◌, Bool, true, false, ◌&&◌, ◌||◌, Option, none, some, List, [], ◌∷◌,
  ◌++◌, length, get_or, ltb, ◌==◌, if◌then◌else◌, add_u32,
}
use cwsd.CwDaemon.{to_winkeyer, is_tuning_command}

abbrev pub is_empty : List ℕ → Bool
is_empty [] = true
is_empty (c ∷ cs) = false

unfoldable pub ends_line : ℕ → Bool
ends_line c = c == b'\n' || c == b'\r' || c == b' '

unfoldable pub strip_tail : List ℕ → List ℕ
strip_tail [] = []
strip_tail (c ∷ cs) =
    let rest = strip_tail cs in if is_empty rest && ends_line c then [] else c ∷ rest

-- The message that `receive` makes of a datagram that is not empty: line ends and spaces go off its
-- end, but never its first byte, and a zero byte comes behind it.
unfoldable pub receive : List ℕ → List ℕ
unfolding strip_tail
receive [] = []
receive (c ∷ cs) = (c ∷ strip_tail cs) ++ 0 ∷ []

-- The locals of `client_worker`.
pub record Worker : Type 0 where
  pub is_tuning : Bool
  pub tune_end_time : ℕ

abbrev pub new_worker : Worker
new_worker = record { is_tuning = false; tune_end_time = 0 }

-- `is_abort_send_cmd` and `is_exit_cmd`
unfoldable pub is_escape : ℕ → List ℕ → Bool
is_escape letter message =
    ltb 1 (length message) && get_or message 0 0 == 27 && get_or message 1 0 == letter

-- `wk_data.back()` and `wk_data.pop_back()`
unfoldable pub back : List ℕ → ℕ
back [] = 0
back (c ∷ []) = c
back (c ∷ d ∷ cs) = back (d ∷ cs)

unfoldable pub pop_back : List ℕ → List ℕ
pop_back [] = []
pop_back (c ∷ []) = []
pop_back (c ∷ d ∷ cs) = c ∷ pop_back (d ∷ cs)

-- A tuning command starts to tune, and its seconds are not passed on.
unfoldable pub start_tuning : ℕ → List ℕ → Worker → List ℕ × Worker
unfolding back pop_back
start_tuning clock bytes w =
    if is_tuning_command bytes
    then (
      pop_back bytes,
      record { is_tuning = true; tune_end_time = add_u32 clock (1000 * back bytes) },
    )
    else (bytes, w)

-- The end of the tuning time.
unfoldable pub expire : ℕ → Worker → List ℕ × Worker
expire clock w =
    if w.is_tuning && ltb w.tune_end_time clock
    then (0x0b ∷ 0 ∷ [], record w { is_tuning = false })
    else ([], w)

-- How a turn of the loop ends: with bytes for the keyer, by `break`, or by an exception.
pub data Outcome : Type 0 where
  feeds : List ℕ → Worker → Outcome
  leaves throws : Outcome

-- A turn: `message` is what was received, `speed` the keyer's, and the two clocks are what
-- `ellapsed_ms` returns at the start of the tuning and at the test of its end.
unfoldable pub turn : Option (List ℕ) → ℕ → ℕ → ℕ → Worker → Outcome
unfolding start_tuning expire is_escape
turn none speed clock later w = let (bytes, w') = expire later w in feeds bytes w'
turn (some message) speed clock later w =
    if is_escape b'5' message
    then leaves
    else if w.is_tuning && is_escape b'4' message
    then feeds (0x0b ∷ 0 ∷ []) (record w { is_tuning = false })
    else elim (to_winkeyer message speed) [
      | none ↦ throws
      | some sent ↦
          let (bytes, w') = start_tuning clock sent w in
          let (ending, w'') = expire later w' in feeds (bytes ++ ending) w''
    ]
