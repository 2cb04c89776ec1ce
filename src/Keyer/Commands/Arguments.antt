-- ===== src/Keyer/Commands/Arguments.antt =====
-- The arguments of immediate commands stay within `winkeyer_arguments`.
use cwsd.Shared.{
  ℕ, zero, suc, Bool, ltb→lt, ◌+◌, ◌-◌, ◌≤◌, ◌<◌, ◌≡◌, refl, true, ◌&&◌, not, List, [], ◌∷◌, get_or,
  set, leb, ltb, ◌==◌, arith, if_both, if_either, add_u8,
}
use cwsd.Keyer.Floats.{Floats}
use cwsd.Keyer.Winkeyer.{
  winkey_commands_parameter_count, parameter_count, is_winkeyer_command,
  is_winkeyer_buffered_command,
}
use cwsd.Keyer.Machine.{Keyer, call}
use cwsd.Keyer.Commands.{execute, take_argument, take_command, take_buffered, winkeyer_data, feed}

abbrev all_small : ℕ → List ℕ → Bool
all_small m [] = true
all_small m (x ∷ xs) = leb x m && all_small m xs

get_or_bound : (m : ℕ) (xs : List ℕ) (i : ℕ) → all_small m xs ≡ true → get_or xs i 0 ≤ m
get_or_bound m [] i h = omega arith
get_or_bound m (x ∷ xs) zero h = ground arith
get_or_bound m (x ∷ xs) (suc i) h = get_or_bound m xs i (ground arith)

parameter_count_bound : (c : ℕ) → parameter_count c ≤ 15
unfolding parameter_count
parameter_count_bound c = get_or_bound 15 winkey_commands_parameter_count c refl

module _ {F : Floats} where
  -- The arguments that are still to come fit behind those that are there.
  data Fits (k : Keyer F) : Type 0 where
    fits : k.winkeyer_argument_index + k.winkeyer_waiting_for_arguments ≤ 15 → Fits k

  execute-Fits : (k : Keyer F) → Fits k → Fits (execute k)
  unfolding execute call
  execute-Fits k (fits h) = if_both Fits (k.winkeyer_pending_command == 0x02) (fits h) (
      if_both Fits (k.winkeyer_pending_command == 0x03) (fits h) (
        if_both Fits (k.winkeyer_pending_command == 0x0a) (fits h)
          (if_both Fits (k.winkeyer_pending_command == 0x0b) (fits h) (fits h))))

  take_argument-Fits :
      (c : ℕ) (k : Keyer F)
      → 0 < k.winkeyer_waiting_for_arguments
      → Fits k
      → Fits (take_argument c k)
  unfolding take_argument
  take_argument-Fits c k waits (fits h) =
      if_both Fits (k'.winkeyer_waiting_for_arguments == 0) (execute-Fits k' within) within
    where
      k' : Keyer F
      k' = record k {
        winkeyer_arguments = set k.winkeyer_arguments k.winkeyer_argument_index c;
        winkeyer_argument_index = add_u8 k.winkeyer_argument_index 1;
        winkeyer_waiting_for_arguments = k.winkeyer_waiting_for_arguments - 1;
      }

      within : Fits k'
      within = fits (omega arith)

  take_command-Fits : (c : ℕ) (k : Keyer F) → Fits (take_command c k)
  unfolding take_command
  take_command-Fits c k =
      if_both Fits (k'.winkeyer_waiting_for_arguments == 0) (execute-Fits k' within) within
    where
      k' : Keyer F
      k' = record k {
        winkeyer_pending_command = c;
        winkeyer_waiting_for_arguments = parameter_count c;
        winkeyer_argument_index = 0;
      }

      within : Fits k'
      within = fits (omega (arith, parameter_count_bound c))

  take_buffered-Fits : (c : ℕ) (k : Keyer F) → Fits k → Fits (take_buffered c k)
  unfolding take_buffered
  take_buffered-Fits c k (fits h) =
      if_both Fits (ltb 0 k.winkeyer_remaining_buffered_arguments) (fits h)
        (if_both Fits (is_winkeyer_command c && is_winkeyer_buffered_command c) (fits h) (fits h))

  winkeyer_data-Fits : (c : ℕ) (k : Keyer F) → Fits k → Fits (winkeyer_data c k)
  unfolding winkeyer_data
  winkeyer_data-Fits c k f =
      if_either Fits (ltb 0 k.winkeyer_waiting_for_arguments)
        (λ e. take_argument-Fits c k (ltb→lt _ _ e) f)
        (λ e.
          if_both Fits
            (k.winkeyer_remaining_buffered_arguments == 0
              && is_winkeyer_command c
              && not (is_winkeyer_buffered_command c))
            (take_command-Fits c k) (take_buffered-Fits c k f))

  feed-Fits : (bytes : List ℕ) (k : Keyer F) → Fits k → Fits (feed bytes k)
  unfolding feed
  feed-Fits [] k f = f
  feed-Fits (c ∷ cs) k f = feed-Fits cs (winkeyer_data c k) (winkeyer_data-Fits c k f)

  -- Where no argument is awaited and the index is at most 15, the index and the number of
  -- arguments that are awaited make at most 15 after any bytes, so that every argument is stored
  -- within the array of 15.
  pub feed_bounds :
      (bytes : List ℕ) (k : Keyer F)
      → k.winkeyer_waiting_for_arguments ≡ 0
      → k.winkeyer_argument_index ≤ 15
      → let k' = feed bytes k in k'.winkeyer_argument_index + k'.winkeyer_waiting_for_arguments ≤ 15
  feed_bounds bytes k none_awaited within = elim (feed-Fits bytes k (fits (omega arith))) [
    | fits h ↦ h
  ]
