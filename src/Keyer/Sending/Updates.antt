-- ===== src/Keyer/Sending/Updates.antt =====
-- What the states' updates do to the account of what is sent.
use cwsd.Shared.{
  ℕ, ◌≡◌, refl, ◌∙◌, Bool, true, false, not, arith, if_both, if_either, ltb, leb, ◌||◌, ◌&&◌, set,
  add_u16,
}
use cwsd.Buffer
use cwsd.Buffer.{CircularBuffer}
use cwsd.Keyer.Floats.{Floats}
use cwsd.Keyer.Machine.{
  Keyer, Answers, none, StateType, send_element, same_state, winkeyer, call, char_sent,
  check_dit_paddle, check_dah_paddle, poll_paddles, is_none,
}
use cwsd.Keyer.CharPatterns.{decode_char}
use cwsd.Keyer.Memory.{
  cell, memory_slot_size, sent_char, add_char_to_recording_memory, stop_recording,
}
use cwsd.Keyer.States.{
  autospace_update, half_dot_gap_update, send_element_update, inter_element_space_update,
  inter_word_space_update, idle_update, idle_decode_char, idle_end_word, check_opposite_paddle,
  resume,
}
use cwsd.Keyer.Sending.{may_be, keyed, Sends, no_paddles, account}

-- `winkeyer` may be entered from anywhere.
abbrev pub may_enter : StateType → Bool → Bool
may_enter winkeyer enabled = true
may_enter s enabled = may_be s enabled

module _ {F : Floats} where
  -- Nothing is sent or taken, and nothing else counts.
  pub record Quiet (k k' : Keyer F) : Type 0 where
    pub sends : Sends k'
    pub balance : account k' ≡ account k
    pub waiting : k'.winkeyer_waiting_for_arguments ≡ k.winkeyer_waiting_for_arguments
    pub remaining :
        k'.winkeyer_remaining_buffered_arguments ≡ k.winkeyer_remaining_buffered_arguments

  pub trans-Quiet : {k l m : Keyer F} → Quiet k l → Quiet l m → Quiet k m
  trans-Quiet p q = record {
    sends = q.sends;
    balance = q.balance ∙ p.balance;
    waiting = q.waiting ∙ p.waiting;
    remaining = q.remaining ∙ p.remaining;
  }

  -- The update stays quiet, and does not go on to send an element.
  abbrev pub QuietIn : Keyer F → StateType × Keyer F → Type 0
  QuietIn k r =
      Quiet k r.1
      × (may_enter r.0 r.1.winkeyer_enabled ≡ true)
      × (same_state r.0 send_element ≡ false)

  pub same_Quiet : (k : Keyer F) → Sends k → Quiet k k
  same_Quiet k v = record { sends = v; balance = refl; waiting = refl; remaining = refl }

  -- What is left to send stays where it is.
  pub record Leaves (k k' : Keyer F) : Type 0 where
    pub bit : k'.playing_bit ≡ k.playing_bit
    pub space : k'.winkeyer_space_played ≡ k.winkeyer_space_played
    pub buffer : k'.winkeyer_buffer ≡ k.winkeyer_buffer

  -- Something is reported or recorded, and that is all.
  abbrev pub Logged : Keyer F → Keyer F → Type 0
  Logged k k' = Quiet k k' × Leaves k k'

  trans-Logged : {k l m : Keyer F} → Logged k l → Logged l m → Logged k m
  trans-Logged (p, q) (p', q') = (
    trans-Quiet p p',
    record { bit = q'.bit ∙ q.bit; space = q'.space ∙ q.space; buffer = q'.buffer ∙ q.buffer },
  )

  same_Logged : (k : Keyer F) → Sends k → Logged k k
  same_Logged k v = (same_Quiet k v, record { bit = refl; space = refl; buffer = refl })

  stop_recording-Logged : (k : Keyer F) → Sends k → Logged k (stop_recording k)
  unfolding stop_recording call keyed
  stop_recording-Logged k v = ground arith

  add_char_to_recording_memory-Logged :
      (c : ℕ) (k : Keyer F) → Sends k → Logged k (add_char_to_recording_memory c k)
  unfolding add_char_to_recording_memory
  add_char_to_recording_memory-Logged c k v =
      if_both (Logged k) (ltb l.recording_index memory_slot_size) quiet
        (trans-Logged quiet (stop_recording-Logged l quiet.0.sends))
    where
      l : Keyer F
      l = record k {
        memory = set k.memory (cell k.recording_slot k.recording_index) c;
        recording_index = add_u16 k.recording_index 1;
      }

      quiet : Logged k l
      quiet = ground arith

  call-Logged : (c : ℕ) (k : Keyer F) → Sends k → Logged k (call (char_sent c) k)
  unfolding call keyed
  call-Logged c k v = ground arith

  sent_char-Logged : (c : ℕ) (k : Keyer F) → Sends k → Logged k (sent_char c k)
  unfolding sent_char
  sent_char-Logged c k v =
      let sent = call-Logged c k v in
      if_both (Logged k) (call (char_sent c) k).is_recording
        (trans-Logged sent
          (add_char_to_recording_memory-Logged c (call (char_sent c) k) sent.0.sends))
        sent

  idle_decode_char-Logged : (a : Answers) (k : Keyer F) → Sends k → Logged k (idle_decode_char a k)
  unfolding idle_decode_char
  idle_decode_char-Logged a k v =
      if_both (Logged k) (ltb 0 k.sent_char_bits && leb k.idle_decode a.current_ms)
        (trans-Logged quiet
          (sent_char-Logged (decode_char k.sent_char_data k.sent_char_bits) l quiet.0.sends))
        (same_Logged k v)
    where
      l : Keyer F
      l = record k { sent_char_data = 0; sent_char_bits = 0 }

      quiet : Logged k l
      quiet = ground arith

  idle_end_word-Logged : (a : Answers) (k : Keyer F) → Sends k → Logged k (idle_end_word a k)
  unfolding idle_end_word
  idle_end_word-Logged a k v =
      if_both (Logged k) (ltb k.idle_word_space a.current_ms && not (is_none k.sent_element))
        (trans-Logged quiet (sent_char-Logged b' ' l quiet.0.sends)) (same_Logged k v)
    where
      l : Keyer F
      l = record k { sent_element = none }

      quiet : Logged k l
      quiet = ground arith

  -- The end of a character and of a word, one after the other.
  pub idle_rest-Logged :
      (a : Answers) (k : Keyer F) → Sends k → Logged k (idle_end_word a (idle_decode_char a k))
  idle_rest-Logged a k v =
      let decoded = idle_decode_char-Logged a k v in
      trans-Logged decoded (idle_end_word-Logged a (idle_decode_char a k) decoded.0.sends)

  pub idle_update-QuietIn :
      (clock : ℕ → ℕ) (n : ℕ) (k : Keyer F)
      → Sends k
      → QuietIn k (idle_update (no_paddles clock n) k)
  unfolding idle_update poll_paddles check_dit_paddle check_dah_paddle
  idle_update-QuietIn clock n k v =
      if_either (QuietIn k) (k.dit_buffered && k.dah_buffered)
        (λ on. absurd (ground (arith, v.no_dit)))
        (λ _.
          if_either (QuietIn k) (k.dit_buffered || k.dah_buffered)
            (λ on. absurd (ground (arith, v.no_dit, v.no_dah)))
            (λ _.
              if_both (QuietIn k) (k.winkeyer_enabled || not (Buffer.empty k.winkeyer_buffer))
                (same_Quiet k v, refl, refl) (ended, refl, refl)))
    where
      ended : Quiet k (idle_end_word (no_paddles clock n) (idle_decode_char (no_paddles clock n) k))
      ended = (idle_rest-Logged (no_paddles clock n) k v).0

  pub autospace_update-QuietIn :
      (clock : ℕ → ℕ) (n : ℕ) (k : Keyer F)
      → Sends k
      → k.winkeyer_enabled ≡ true
      → QuietIn k (autospace_update (no_paddles clock n) k)
  unfolding autospace_update resume
  autospace_update-QuietIn clock n k v on = ground (arith, v.no_play)

  pub half_dot_gap_update-QuietIn :
      (clock : ℕ → ℕ) (n : ℕ) (k : Keyer F)
      → Sends k
      → k.winkeyer_enabled ≡ true
      → QuietIn k (half_dot_gap_update (no_paddles clock n) k)
  unfolding half_dot_gap_update resume
  half_dot_gap_update-QuietIn clock n k v on = ground (arith, v.no_play)

  pub inter_word_space_update-QuietIn :
      (clock : ℕ → ℕ) (n : ℕ) (k : Keyer F)
      → Sends k
      → k.winkeyer_enabled ≡ true
      → QuietIn k (inter_word_space_update (no_paddles clock n) k)
  unfolding inter_word_space_update poll_paddles check_dit_paddle check_dah_paddle
  inter_word_space_update-QuietIn clock n k v on = ground arith

  pub inter_element_space_update-QuietIn :
      (clock : ℕ → ℕ) (n : ℕ) (k : Keyer F)
      → Sends k
      → k.winkeyer_enabled ≡ true
      → QuietIn k (inter_element_space_update (no_paddles clock n) k)
  unfolding inter_element_space_update check_opposite_paddle poll_paddles check_dit_paddle
      check_dah_paddle
  inter_element_space_update-QuietIn clock n k v on = ground arith

  -- The end of an element; the keyer may stay in the state.
  pub send_element_update-Quiet :
      (clock : ℕ → ℕ) (n : ℕ) (k : Keyer F)
      → Sends k
      → k.winkeyer_enabled ≡ true
      → let r = send_element_update (no_paddles clock n) k in
        Quiet k r.1 × (may_enter r.0 r.1.winkeyer_enabled ≡ true)
  unfolding send_element_update check_opposite_paddle check_dit_paddle check_dah_paddle
  send_element_update-Quiet clock n k v on = ground arith
