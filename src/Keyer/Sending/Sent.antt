-- ===== src/Keyer/Sending/Sent.antt =====
-- Everything that the keyer was fed is sent in the end.
use cwsd.Shared.{
  ℕ, ◌+◌, ◌≤◌, ◌≡◌, ◌⊎◌, refl, sym, ◌∙◌, true, List, [], ◌∷◌, ◌++◌, append-nil, arith,
  if◌then◌else◌, inl, inr, Bool-cases,
}
use cwsd.Keyer.Floats.{Floats}
use cwsd.Keyer.Machine.{Keyer}
use cwsd.Keyer.States.{update}
use cwsd.Keyer.Sending.{
  Sends, no_paddles, account, keyed, code, lacking, elements, Act, ticks, fed, run, keeps_all,
}
use cwsd.Keyer.Sending.Ticks.{update-Quiet}
use cwsd.Keyer.Sending.Feeds.{waits}
use cwsd.Keyer.Sending.Order.{account-run}
use cwsd.Keyer.Sending.Progress.{is_due, IsDone}
use cwsd.Keyer.Sending.Drains.{rounds_left, Drops, update_loop-Drops}

-- Calls of `update` alone.
unfoldable pub all_ticks : List (ℕ → ℕ) → List Act
all_ticks [] = []
all_ticks (clock ∷ clocks) = ticks clock ∷ all_ticks clocks

-- The clock that the first round of `update` sees.
abbrev pub first_now : (ℕ → ℕ) → ℕ
first_now clock = clock 15

module _ {F : Floats} where
  -- How many of the calls of `update` come when the time has come that the state waits for.
  unfoldable pub due_ticks : Keyer F → List (ℕ → ℕ) → ℕ
  due_ticks k [] = 0
  due_ticks k (clock ∷ clocks) =
      (if is_due k.current_state (first_now clock) k then 1 else 0)
      + due_ticks (update (no_paddles clock) k) clocks

  -- What a call of `update` does to the count of the calls in time that are still needed.
  in_time :
      {now : ℕ} {k k' : Keyer F} (m : ℕ)
      → Drops now k k'
      → IsDone k ⊎ (rounds_left k ≤ (if is_due k.current_state now k then 1 else 0) + m)
      → IsDone k' ⊎ (rounds_left k' ≤ m)
  in_time m p (inl done) = inl (p.sinks.stays_done done)
  in_time {now} {k} m p (inr few) = elim (Bool-cases (is_due k.current_state now k)) [
    | inl due ↦
        let few' : rounds_left k ≤ 1 + m = rw due at few in
        elim (p.fewer due) [
          | inl done ↦ inl (p.sinks.stays_done done)
          | inr less ↦ inr (omega (arith, less, few'))
        ]
    | inr early ↦
        let few' : rounds_left k ≤ 0 + m = rw early at few in
        inr (omega (arith, p.sinks.no_higher, few'))
  ]

  -- Calls of `update` leave the account, and enough of them in time leave nothing to do.
  all_ticks-IsDone :
      (clocks : List (ℕ → ℕ)) (k : Keyer F)
      → Sends k
      → k.winkeyer_remaining_buffered_arguments ≡ 0
      → IsDone k ⊎ (rounds_left k ≤ due_ticks k clocks)
      → let k' = run k (all_ticks clocks) in IsDone k' × (account k' ≡ account k)
  unfolding run all_ticks due_ticks update
  all_ticks-IsDone [] k v whole (inl done) = (done, refl)
  all_ticks-IsDone [] k v whole (inr none_left) = (unfold rounds_left in ground arith, refl)
  all_ticks-IsDone (clock ∷ clocks) k v whole enough =
      let q = update-Quiet clock k v in
      let d = update_loop-Drops 15 clock k v whole in
      let (done, sum) =
        all_ticks-IsDone clocks (update (no_paddles clock) k) q.sends (q.remaining ∙ whole)
          (in_time (due_ticks (update (no_paddles clock) k) clocks) d enough) in
      (done, sum ∙ q.balance)

  -- A keyer that is done has keyed its account.
  IsDone-account : (k : Keyer F) → IsDone k → account k ≡ keyed k.calls
  unfolding elements code
  IsDone-account k (bit, bytes) = rw (bit, bytes) (append-nil _ ∙ append-nil (keyed k.calls))

  -- A keyer that satisfies `Sends` is fed bytes between calls of `update`, none of them lost and
  -- the last command complete; then `update` is called without paddles, and as many of these calls
  -- as `rounds_left` says, which is finite, come when the time has come that the state waits for.
  -- What has been keyed then is what had been keyed and what was still to be sent at the start,
  -- followed by the Morse code of the bytes.
  pub fed_sent :
      (acts : List Act) (clocks : List (ℕ → ℕ)) (k : Keyer F)
      → Sends k
      → keeps_all k acts ≡ true
      → lacking (waits k) (fed acts) ≡ 0
      → rounds_left (run k acts) ≤ due_ticks (run k acts) clocks
      → keyed (run (run k acts) (all_ticks clocks)).calls ≡ account k ++ code (waits k) (fed acts)
  fed_sent acts clocks k v kept complete enough =
      let (w, more, sum) = account-run acts k v kept in
      let whole : (run k acts).winkeyer_remaining_buffered_arguments ≡ 0 =
        omega (arith, more, complete) in
      let (done, same) = all_ticks-IsDone clocks (run k acts) w whole (inr enough) in
      sym (IsDone-account (run (run k acts) (all_ticks clocks)) done) ∙ same ∙ sum
