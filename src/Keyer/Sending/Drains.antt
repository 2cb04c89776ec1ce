-- ===== src/Keyer/Sending/Drains.antt =====
-- With time the keyer sends everything: each call of `update` at which the time has come that its
-- state waits for brings it nearer to the end.
use cwsd.Shared.{
  ℕ, zero, suc, ◌+◌, ◌≤◌, ◌<◌, ◌≡◌, ◌⊎◌, refl, sym, ap, ap₂, ◌∙◌, true, false, arith, if_either,
  inl, inr,
}
use cwsd.Buffer.{size}
use cwsd.Keyer.Floats.{Floats}
use cwsd.Keyer.Machine.{
  Keyer, Answers, StateType, idle, send_element, key_down, tune, play, inter_element_space,
  inter_word_space, autospace, winkeyer, half_dot_gap, same_state, call, set_sidetone_and_tx,
}
use cwsd.Keyer.States.{
  update_state, idle_enter, send_element_enter, inter_element_space_enter, inter_word_space_enter,
  autospace_enter, winkeyer_enter, half_dot_gap_enter, send_element_exit, enter, exit, switch_to,
  update_loop,
}
use cwsd.Keyer.States.Keeps.{state_kept, update_state-Keeps}
use cwsd.Keyer.Sending.{Sends, no_paddles, may_be}
use cwsd.Keyer.Sending.Updates.{Leaves}
use cwsd.Keyer.Sending.Ticks.{update_state-Rounds}
use cwsd.Keyer.Sending.Progress.{
  rank, is_due, stock, IsDone, Lowers, autospace_update-Lowers, half_dot_gap_update-Lowers,
  inter_word_space_update-Lowers, inter_element_space_update-Lowers, send_element_update-Lowers,
  idle_update-Lowers, winkeyer_update-Lowers,
}

rank_same : (s t : StateType) → same_state s t ≡ true → rank s ≡ rank t
rank_same s t h = ground arith

module _ {F : Floats} where
  -- A bound on the rounds until everything is sent.
  unfoldable pub rounds_left : Keyer F → ℕ
  rounds_left k = rank k.current_state + stock k

  enter-Leaves :
      (s : StateType) (a : Answers) (k : Keyer F)
      → Leaves k (enter s a k) × ((enter s a k).current_state ≡ k.current_state)
  unfolding enter idle_enter send_element_enter inter_element_space_enter inter_word_space_enter
      autospace_enter winkeyer_enter half_dot_gap_enter call set_sidetone_and_tx
  enter-Leaves s a k = ground arith

  exit-Leaves : (s : StateType) (a : Answers) (k : Keyer F) → Leaves k (exit s a k)
  unfolding exit send_element_exit call set_sidetone_and_tx
  exit-Leaves s a k = ground arith

  -- A switch changes the state and leaves what is left to send.
  switch_to-Leaves :
      (next : StateType) (a : Answers) (k : Keyer F)
      → same_state next k.current_state ≡ false
      → Leaves k (switch_to next a k) × ((switch_to next a k).current_state ≡ next)
  unfolding switch_to
  switch_to-Leaves next a k h =
      let out = exit-Leaves k.current_state a k in
      let (inside, now) = enter-Leaves next a left in
      rw h (
        record {
          bit = inside.bit ∙ out.bit;
          space = inside.space ∙ out.space;
          buffer = inside.buffer ∙ out.buffer;
        },
        now,
      )
    where
      left : Keyer F
      left = record (exit k.current_state a k) { current_state = next }

  -- An update in the current state.
  update_state-Lowers :
      (s : StateType) (clock : ℕ → ℕ) (n : ℕ) (k : Keyer F)
      → Sends k
      → k.winkeyer_remaining_buffered_arguments ≡ 0
      → may_be s k.winkeyer_enabled ≡ true
      → Lowers s (clock n) k (update_state s (no_paddles clock n) k)
  unfolding update_state
  update_state-Lowers idle clock n k v whole may = idle_update-Lowers clock n k v
  update_state-Lowers send_element clock n k v whole may = send_element_update-Lowers clock n k
  update_state-Lowers key_down clock n k v whole may = absurd (ground arith)
  update_state-Lowers tune clock n k v whole may = absurd (ground arith)
  update_state-Lowers play clock n k v whole may = absurd (ground arith)
  update_state-Lowers inter_element_space clock n k v whole may =
      inter_element_space_update-Lowers clock n k may
  update_state-Lowers inter_word_space clock n k v whole may =
      inter_word_space_update-Lowers clock n k may
  update_state-Lowers autospace clock n k v whole may = autospace_update-Lowers clock n k v may
  update_state-Lowers winkeyer clock n k v whole may = winkeyer_update-Lowers clock n k v whole
  update_state-Lowers half_dot_gap clock n k v whole may =
      half_dot_gap_update-Lowers clock n k v may

  -- No more rounds are left, and what is done stays done.
  pub record Sinks (k k' : Keyer F) : Type 0 where
    pub no_higher : rounds_left k' ≤ rounds_left k
    pub stays_done : IsDone k → IsDone k'

  -- Fewer are left if the time has come, unless all is done.
  pub record Drops (now : ℕ) (k k' : Keyer F) : Type 0 where
    pub sinks : Sinks k k'
    pub fewer : is_due k.current_state now k ≡ true → IsDone k ⊎ (rounds_left k' < rounds_left k)

  Drops-Sinks : {now : ℕ} {k l m : Keyer F} → Drops now k l → Sinks l m → Drops now k m
  Drops-Sinks p q = record {
    sinks = record {
      no_higher = omega (arith, p.sinks.no_higher, q.no_higher);
      stays_done = λ d. q.stays_done (p.sinks.stays_done d);
    };
    fewer = λ due. elim (p.fewer due) [
      | inl done ↦ inl done
      | inr less ↦ inr (omega (arith, less, q.no_higher))
    ];
  }

  -- An outcome of an update that ends in its state.
  Lowers-Drops :
      {now : ℕ} {k k' : Keyer F} {r : StateType × Keyer F}
      → Lowers k.current_state now k r
      → rounds_left k' ≡ rank r.0 + stock r.1
      → (IsDone r.1 → IsDone k')
      → Drops now k k'
  unfolding rounds_left
  Lowers-Drops {now} {k} {k'} {r} low left done = record {
    sinks = record {
      no_higher = omega (arith, low.never_higher, left);
      stays_done = λ d. done (low.stays_done d);
    };
    fewer =
        λ due. elim (low.lower due) [ inl d ↦ inl d | inr less ↦ inr (omega (arith, less, left)) ];
  }

  Leaves-stock : {k k' : Keyer F} → Leaves k k' → stock k' ≡ stock k
  Leaves-stock {k} {k'} same = ground (arith, same.bit, same.space, same.buffer)

  Leaves-IsDone : {k k' : Keyer F} → Leaves k k' → IsDone k → IsDone k'
  Leaves-IsDone same (bit, bytes) = (same.bit ∙ bit, ap size same.buffer ∙ bytes)

  -- A round of the loop that stays in its state, and one that switches.
  stay-Drops :
      (clock : ℕ → ℕ) (n : ℕ) (k : Keyer F)
      → Sends k
      → k.winkeyer_remaining_buffered_arguments ≡ 0
      → let r = update_state k.current_state (no_paddles clock n) k in
        same_state r.0 k.current_state ≡ true → Drops (clock n) k r.1
  unfolding rounds_left
  stay-Drops clock n k v whole stays =
      Lowers-Drops (update_state-Lowers k.current_state clock n k v whole v.in_state)
        (ap₂ ◌+◌
          (ap rank (state_kept (update_state-Keeps k.current_state (no_paddles clock n) k))
            ∙ sym (rank_same _ k.current_state stays))
          refl)
        (λ d. d)

  switch-Drops :
      (clock : ℕ → ℕ) (n : ℕ) (k : Keyer F)
      → Sends k
      → k.winkeyer_remaining_buffered_arguments ≡ 0
      → let r = update_state k.current_state (no_paddles clock n) k in
        same_state r.0 k.current_state ≡ false
        → Drops (clock n) k (switch_to r.0 (no_paddles clock n) r.1)
  unfolding rounds_left
  switch-Drops clock n k v whole goes =
      let r = update_state k.current_state (no_paddles clock n) k in
      let same = state_kept (update_state-Keeps k.current_state (no_paddles clock n) k) in
      let (left, now) =
        switch_to-Leaves r.0 (no_paddles clock n) r.1 (ap (λ s. same_state r.0 s) same ∙ goes) in
      Lowers-Drops (update_state-Lowers k.current_state clock n k v whole v.in_state)
        (ap₂ ◌+◌ (ap rank now) (Leaves-stock left)) (Leaves-IsDone left)

  -- A round, and whatever the later rounds do.
  round-Drops :
      (n : ℕ) (clock : ℕ → ℕ) (k : Keyer F)
      → Sends k
      → k.winkeyer_remaining_buffered_arguments ≡ 0
      → ((l : Keyer F)
          → Sends l
          → l.winkeyer_remaining_buffered_arguments ≡ 0
          → Sinks l (update_loop n (no_paddles clock) l))
      → Drops (clock n) k (update_loop (suc n) (no_paddles clock) k)
  unfolding update_loop
  round-Drops n clock k v whole later =
      if_either (Drops (clock n) k)
        (same_state (update_state k.current_state (no_paddles clock n) k).0 k.current_state)
        (stay-Drops clock n k v whole)
        (λ goes.
          let q = (update_state-Rounds k.current_state clock n k v refl).1 goes in
          Drops-Sinks (switch-Drops clock n k v whole goes) (later _ q.sends (q.remaining ∙ whole)))

  -- The loop as a whole, on the clock of its first round.
  pub update_loop-Drops :
      (n : ℕ) (clock : ℕ → ℕ) (k : Keyer F)
      → Sends k
      → k.winkeyer_remaining_buffered_arguments ≡ 0
      → Drops (clock n) k (update_loop (suc n) (no_paddles clock) k)
  unfolding update_loop
  update_loop-Drops zero clock k v whole =
      round-Drops zero clock k v whole
        (λ l w all. record { no_higher = omega arith; stays_done = λ d. d })
  update_loop-Drops (suc n) clock k v whole =
      round-Drops (suc n) clock k v whole (λ l w all. (update_loop-Drops n clock l w all).sinks)
