-- ===== src/Keyer/Sending/Ticks.antt =====
-- A call of `update` keeps the account: an element leaves it for the key, and nothing else does.
use cwsd.Shared.{
  ℕ, zero, suc, ◌≡◌, refl, sym, ap, ◌∙◌, true, false, [], ◌∷◌, append_assoc, arith, if_both,
  if_either, inl, inr,
}
use cwsd.Keyer.Floats.{Floats}
use cwsd.Keyer.Machine.{
  Keyer, Answers, dit, dah, StateType, idle, send_element, key_down, tune, play,
  inter_element_space, inter_word_space, autospace, winkeyer, half_dot_gap, same_state, call,
  set_sidetone_and_tx,
}
use cwsd.Keyer.States.{
  update_state, idle_enter, send_element_enter, inter_element_space_enter, inter_word_space_enter,
  autospace_enter, winkeyer_enter, half_dot_gap_enter, send_element_exit, enter, exit, switch_to,
  update_loop, update, send_element_update,
}
use cwsd.Keyer.States.Keeps.{state_kept, update_state-Keeps}
use cwsd.Keyer.Sending.{keyed, Sends, no_paddles, pending, may_be}
use cwsd.Keyer.Sending.Updates.{
  Quiet, QuietIn, trans-Quiet, same_Quiet, may_enter, idle_update-QuietIn, autospace_update-QuietIn,
  half_dot_gap_update-QuietIn, inter_word_space_update-QuietIn, inter_element_space_update-QuietIn,
  send_element_update-Quiet,
}
use cwsd.Keyer.Sending.Letters.{Begins, Moves}
use cwsd.Keyer.Sending.Next.{winkeyer_update-Moves}

module _ {F : Floats} where
  -- A state other than `send_element` is entered without a sound.
  enter-Quiet :
      (next : StateType) (a : Answers) (k : Keyer F)
      → Sends k
      → may_enter next k.winkeyer_enabled ≡ true
      → same_state next send_element ≡ false
      → Quiet k (enter next a (record k { current_state = next }))
  unfolding enter idle_enter inter_element_space_enter inter_word_space_enter autospace_enter
      winkeyer_enter half_dot_gap_enter call keyed
  enter-Quiet idle a k v may soft = ground arith
  enter-Quiet send_element a k v may soft = absurd (ground arith)
  enter-Quiet key_down a k v may soft = absurd (ground arith)
  enter-Quiet tune a k v may soft = absurd (ground arith)
  enter-Quiet inter_element_space a k v may soft = ground arith
  enter-Quiet inter_word_space a k v may soft = ground arith
  enter-Quiet play a k v may soft = absurd (ground arith)
  enter-Quiet autospace a k v may soft = ground arith
  enter-Quiet winkeyer a k v may soft = ground arith
  enter-Quiet half_dot_gap a k v may soft = ground arith

  send_element_exit-Quiet : (a : Answers) (k : Keyer F) → Sends k → Quiet k (send_element_exit a k)
  unfolding send_element_exit call set_sidetone_and_tx keyed
  send_element_exit-Quiet a k v = ground arith

  -- A state is left without a sound, and in the same mode.
  exit-Quiet :
      (s : StateType) (a : Answers) (k : Keyer F)
      → Sends k
      → Quiet k (exit s a k) × ((exit s a k).winkeyer_enabled ≡ k.winkeyer_enabled)
  unfolding exit send_element_exit call set_sidetone_and_tx
  exit-Quiet idle a k v = (same_Quiet k v, refl)
  exit-Quiet send_element a k v = (send_element_exit-Quiet a k v, refl)
  exit-Quiet key_down a k v = (same_Quiet k v, refl)
  exit-Quiet tune a k v = (same_Quiet k v, refl)
  exit-Quiet inter_element_space a k v = (same_Quiet k v, refl)
  exit-Quiet inter_word_space a k v = (same_Quiet k v, refl)
  exit-Quiet play a k v = (same_Quiet k v, refl)
  exit-Quiet autospace a k v = (same_Quiet k v, refl)
  exit-Quiet winkeyer a k v = (same_Quiet k v, refl)
  exit-Quiet half_dot_gap a k v = (same_Quiet k v, refl)

  switch_to-Quiet :
      (next : StateType) (a : Answers) (k : Keyer F)
      → Sends k
      → may_enter next k.winkeyer_enabled ≡ true
      → same_state next send_element ≡ false
      → Quiet k (switch_to next a k)
  unfolding switch_to
  switch_to-Quiet next a k v may soft =
      let (out, mode) = exit-Quiet k.current_state a k v in
      if_both (Quiet k) (same_state next k.current_state) (same_Quiet k v) (
        trans-Quiet out (
          enter-Quiet next a (exit k.current_state a k) out.sends (ap (may_enter next) mode ∙ may)
            soft))

  -- The element that begins is keyed.
  send_element_enter-Quiet :
      (a : Answers) (k k' : Keyer F)
      → Begins k k'
      → k'.winkeyer_enabled ≡ true
      → Quiet k (send_element_enter a (record k' { current_state = send_element }))
  unfolding send_element_enter call set_sidetone_and_tx keyed
  send_element_enter-Quiet a k k' b on = ground (
    arith,
    append_assoc (keyed k'.calls) (dit ∷ []) (pending k'),
    append_assoc (keyed k'.calls) (dah ∷ []) (pending k'),
    b.sounds,
    b.balance,
  )

  begin-Quiet :
      (a : Answers) (k k' : Keyer F)
      → Begins k k'
      → k'.current_state ≡ winkeyer
      → Quiet k (switch_to send_element a k')
  unfolding switch_to exit enter
  begin-Quiet a k k' b here =
      rw here (send_element_enter-Quiet a k k' b (rw here at b.sends.in_state))

  -- What a round of the loop does with the outcome of an update: it stays, or switches.
  abbrev pub Rounds : Answers → Keyer F → StateType × Keyer F → Type 0
  Rounds a k r =
      (same_state r.0 k.current_state ≡ true → Quiet k r.1)
      × (same_state r.0 k.current_state ≡ false → Quiet k (switch_to r.0 a r.1))

  QuietIn-Rounds :
      (a : Answers) (k : Keyer F) (r : StateType × Keyer F) → QuietIn k r → Rounds a k r
  QuietIn-Rounds a k r (q, may, soft) =
      (λ _. q, λ _. trans-Quiet q (switch_to-Quiet r.0 a r.1 q.sends may soft))

  Moves-Rounds :
      (a : Answers) (k : Keyer F) (r : StateType × Keyer F)
      → k.current_state ≡ winkeyer
      → r.1.current_state ≡ k.current_state
      → Moves k r
      → Rounds a k r
  Moves-Rounds a k r here same (inl q) = QuietIn-Rounds a k r q
  Moves-Rounds a k r here same (inr (next, b)) =
      (λ e. absurd (ground arith), λ _. rw next (begin-Quiet a k r.1 b (same ∙ here)))

  state_in :
      (s : StateType) {k : Keyer F}
      → Sends k
      → k.current_state ≡ s
      → may_be s k.winkeyer_enabled ≡ true
  state_in s v here = rw here at v.in_state

  -- A round of the loop in each of the states.
  pub update_state-Rounds :
      (s : StateType) (clock : ℕ → ℕ) (n : ℕ) (k : Keyer F)
      → Sends k
      → k.current_state ≡ s
      → Rounds (no_paddles clock n) k (update_state s (no_paddles clock n) k)
  unfolding update_state
  update_state-Rounds idle clock n k v here = QuietIn-Rounds _ k _ (idle_update-QuietIn clock n k v)
  update_state-Rounds send_element clock n k v here =
      let (q, may) = send_element_update-Quiet clock n k v (state_in send_element v here) in
      let next : StateType = (send_element_update (no_paddles clock n) k).0 in
      (
        λ _. q,
        λ e.
            trans-Quiet q
              (switch_to-Quiet next _ _ q.sends may (ap (same_state next) (sym here) ∙ e)),
      )
  update_state-Rounds key_down clock n k v here = absurd (ground (arith, state_in key_down v here))
  update_state-Rounds tune clock n k v here = absurd (ground (arith, state_in tune v here))
  update_state-Rounds play clock n k v here = absurd (ground (arith, state_in play v here))
  update_state-Rounds inter_element_space clock n k v here =
      QuietIn-Rounds _ k _
        (inter_element_space_update-QuietIn clock n k v (state_in inter_element_space v here))
  update_state-Rounds inter_word_space clock n k v here =
      QuietIn-Rounds _ k _
        (inter_word_space_update-QuietIn clock n k v (state_in inter_word_space v here))
  update_state-Rounds autospace clock n k v here =
      QuietIn-Rounds _ k _ (autospace_update-QuietIn clock n k v (state_in autospace v here))
  update_state-Rounds half_dot_gap clock n k v here =
      QuietIn-Rounds _ k _ (half_dot_gap_update-QuietIn clock n k v (state_in half_dot_gap v here))
  update_state-Rounds winkeyer clock n k v here =
      let on = state_in winkeyer v here in
      Moves-Rounds _ k _ here (state_kept (update_state-Keeps winkeyer (no_paddles clock n) k))
        (winkeyer_update-Moves clock n k v on)

  update_loop-Quiet :
      (n : ℕ) (clock : ℕ → ℕ) (k : Keyer F) → Sends k → Quiet k (update_loop n (no_paddles clock) k)
  unfolding update_loop
  update_loop-Quiet zero clock k v = same_Quiet k v
  update_loop-Quiet (suc n) clock k v =
      let (stays, goes) = update_state-Rounds k.current_state clock n k v refl in
      if_either (Quiet k)
        (same_state (update_state k.current_state (no_paddles clock n) k).0 k.current_state) stays
        (λ e. trans-Quiet (goes e) (update_loop-Quiet n clock _ (goes e).sends))

  -- A call of `update` leaves the account as it was.
  pub update-Quiet : (clock : ℕ → ℕ) (k : Keyer F) → Sends k → Quiet k (update (no_paddles clock) k)
  unfolding update
  update-Quiet clock k v = update_loop-Quiet 16 clock k v
