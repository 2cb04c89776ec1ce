-- ===== src/Keyer/Sending/Progress.antt =====
-- How many rounds the keyer is at most from having sent everything.
use cwsd.Shared.{
  ℕ, zero, suc, ◌+◌, ◌-◌, ◌*◌, ◌≤◌, ◌<◌, ◌≡◌, ◌≢◌, ◌⊎◌, refl, ap, Bool, true, false, not, List, [],
  ◌∷◌, arith, if◌then◌else◌, if_both, if_either, Option-cases, inl, inr, length, drop, ◌==◌, ==_iff,
  leb, ◌&&◌, ◌||◌, get_or, length-drop,
}
use cwsd.Buffer
use cwsd.Buffer.{CircularBuffer, size}
use cwsd.Buffer.Inv.{IsValid, get-IsValid, size-get, size-reset, empty_iff}
use cwsd.Buffer.Refine.{contents, length-contents}
use cwsd.Keyer.Floats.{Floats}
use cwsd.Keyer.CharPatterns.{get_char_pattern, decode_char-get_char_pattern}
use cwsd.Keyer.Winkeyer.{parameter_count, is_winkeyer_command}
use cwsd.Keyer.Machine.{
  Keyer, StateType, idle, send_element, inter_element_space, inter_word_space, autospace, winkeyer,
  half_dot_gap, check_dit_paddle, check_dah_paddle, poll_paddles,
}
use cwsd.Keyer.States.{
  play_element, winkeyer_char, winkeyer_next, winkeyer_update, buffered_command, get_arguments,
  autospace_update, half_dot_gap_update, send_element_update, inter_element_space_update,
  inter_word_space_update, idle_update, check_opposite_paddle, resume,
}
use cwsd.Keyer.Sending.{Sends, no_paddles, queue, lacking, arguments_of}
use cwsd.Keyer.Sending.Updates.{idle_rest-Logged}
use cwsd.Keyer.Sending.Front.{contents-get, contents-get_arguments}

-- How far a state is from `winkeyer`.
abbrev pub rank : StateType → ℕ
rank winkeyer = 0
rank send_element = 2
rank s = 1

-- A stream too short for the arguments lacks the others.
lacking_short : (n : ℕ) (q : List ℕ) → length q ≤ n → lacking n q ≡ n - length q
unfolding lacking
lacking_short zero [] h = refl
lacking_short zero (x ∷ q) h = absurd (omega arith)
lacking_short (suc n) [] h = omega arith
lacking_short (suc n) (x ∷ q) h = omega (arith, lacking_short n q)

lacking_command :
    (c : ℕ) (q : List ℕ)
    → is_winkeyer_command c ≡ true
    → lacking 0 (c ∷ q) ≡ lacking (parameter_count c) q
unfolding lacking arguments_of
lacking_command c q command = rw command refl

module _ {F : Floats} where
  -- Whether the time has come that a state waits for.
  abbrev pub is_due : StateType → ℕ → Keyer F → Bool
  is_due send_element now k = leb k.send_exit now
  is_due inter_element_space now k = leb k.element_space_exit now
  is_due inter_word_space now k = leb k.word_space_exit now
  is_due autospace now k = leb k.autospace_exit now
  is_due half_dot_gap now k = leb k.half_dot_exit now
  is_due s now k = true

  -- At most three states for an element, and no more than 25 for a byte, which may bring seven
  -- elements.
  abbrev pub stock : Keyer F → ℕ
  stock k =
      3 * k.playing_bit + (if k.winkeyer_space_played then 0 else 2) + 25 * size k.winkeyer_buffer

  -- Nothing is left of a character, nor in the buffer.
  abbrev pub IsDone : Keyer F → Type 0
  IsDone k = (k.playing_bit ≡ 0) × (size k.winkeyer_buffer ≡ 0)

  -- An update in the state `s`: it brings nothing back, it comes nearer to the end if its time has
  -- come, and it leaves what is done.
  pub record Lowers (s : StateType) (now : ℕ) (k : Keyer F) (r : StateType × Keyer F) : Type 0 where
    pub never_higher : rank r.0 + stock r.1 ≤ rank s + stock k
    pub lower : is_due s now k ≡ true → IsDone k ⊎ (rank r.0 + stock r.1 < rank s + stock k)
    pub stays_done : IsDone k → IsDone r.1

  pub autospace_update-Lowers :
      (clock : ℕ → ℕ) (n : ℕ) (k : Keyer F)
      → Sends k
      → k.winkeyer_enabled ≡ true
      → Lowers autospace (clock n) k (autospace_update (no_paddles clock n) k)
  unfolding autospace_update resume
  autospace_update-Lowers clock n k v on = ground (arith, v.no_play)

  pub half_dot_gap_update-Lowers :
      (clock : ℕ → ℕ) (n : ℕ) (k : Keyer F)
      → Sends k
      → k.winkeyer_enabled ≡ true
      → Lowers half_dot_gap (clock n) k (half_dot_gap_update (no_paddles clock n) k)
  unfolding half_dot_gap_update resume
  half_dot_gap_update-Lowers clock n k v on = ground (arith, v.no_play)

  pub inter_word_space_update-Lowers :
      (clock : ℕ → ℕ) (n : ℕ) (k : Keyer F)
      → k.winkeyer_enabled ≡ true
      → Lowers inter_word_space (clock n) k (inter_word_space_update (no_paddles clock n) k)
  unfolding inter_word_space_update poll_paddles check_dit_paddle check_dah_paddle
  inter_word_space_update-Lowers clock n k on = ground arith

  pub inter_element_space_update-Lowers :
      (clock : ℕ → ℕ) (n : ℕ) (k : Keyer F)
      → k.winkeyer_enabled ≡ true
      → Lowers inter_element_space (clock n) k (inter_element_space_update (no_paddles clock n) k)
  unfolding inter_element_space_update check_opposite_paddle poll_paddles check_dit_paddle
      check_dah_paddle
  inter_element_space_update-Lowers clock n k on = ground arith

  pub send_element_update-Lowers :
      (clock : ℕ → ℕ) (n : ℕ) (k : Keyer F)
      → Lowers send_element (clock n) k (send_element_update (no_paddles clock n) k)
  unfolding send_element_update check_opposite_paddle check_dit_paddle check_dah_paddle
  send_element_update-Lowers clock n k = ground arith

  pub idle_update-Lowers :
      (clock : ℕ → ℕ) (n : ℕ) (k : Keyer F)
      → Sends k
      → Lowers idle (clock n) k (idle_update (no_paddles clock n) k)
  unfolding idle_update poll_paddles check_dit_paddle check_dah_paddle
  idle_update-Lowers clock n k v = ground (
    arith,
    v.no_dit,
    v.no_dah,
    v.nothing_left,
    (idle_rest-Logged (no_paddles clock n) k v).1,
    empty_iff v.valid,
  )

  play_element-Lowers :
      (now : ℕ) (k : Keyer F) → k.playing_bit ≢ 0 → Lowers winkeyer now k (play_element k)
  unfolding play_element
  play_element-Lowers now k more = ground arith

  winkeyer_char-Lowers :
      (now c : ℕ) (b : CircularBuffer ℕ) (k : Keyer F)
      → k.playing_bit ≡ 0
      → size b < size k.winkeyer_buffer
      → Lowers winkeyer now k (winkeyer_char c (record k { winkeyer_buffer = b }))
  unfolding winkeyer_char play_element
  winkeyer_char-Lowers now c b k done fewer =
      if_either (Lowers winkeyer now k) (c == b'|') (λ _. ground arith)
        (λ _. elim (Option-cases (get_char_pattern c)) [
          | inl lost ↦ rw (lost, winkeyer_char) (ground arith)
          | inr (p, found) ↦
              let (_, some_element, few, _) = decode_char-get_char_pattern c p found in
              rw (found, winkeyer_char) (ground arith)
        ])

  command-Lowers :
      (now c first : ℕ) (b : CircularBuffer ℕ) (k : Keyer F)
      → IsValid b
      → size b < size k.winkeyer_buffer
      → Lowers winkeyer now k
          (winkeyer, buffered_command c first (record k { winkeyer_buffer = b }))
  unfolding buffered_command
  command-Lowers now c first b k w fewer = ground (arith, size-reset b w)

  -- With no command that lacks an argument, the next byte is taken.
  winkeyer_next-Lowers :
      (now : ℕ) (k : Keyer F)
      → Sends k
      → k.winkeyer_remaining_buffered_arguments ≡ 0
      → k.playing_bit ≡ 0
      → Buffer.empty k.winkeyer_buffer ≡ false
      → Lowers winkeyer now k (winkeyer_next k)
  unfolding winkeyer_next
  winkeyer_next-Lowers now k v whole done held =
      if_either (Lowers winkeyer now k)
        (is_winkeyer_command c && leb (Buffer.size k.winkeyer_buffer) (parameter_count c))
        (λ few. absurd (incomplete few whole))
        (λ _.
          if_both (Lowers winkeyer now k) (is_winkeyer_command c)
            (command-Lowers now c (get_or taken.0 0 0) taken.1 k rest.0 fewer_still)
            (winkeyer_char-Lowers now c b k done fewer))
    where
      c : ℕ
      c = Buffer.peek k.winkeyer_buffer 0

      b : CircularBuffer ℕ
      b = (Buffer.get k.winkeyer_buffer 0).1

      taken : List ℕ × CircularBuffer ℕ
      taken = get_arguments (parameter_count c) b

      rest : IsValid taken.1 × (contents 0 taken.1 ≡ drop (parameter_count c) (contents 0 b))
      rest = contents-get_arguments (parameter_count c) (get-IsValid 0 v.valid)

      fewer : size b < size k.winkeyer_buffer
      fewer = ground (arith, size-get 0 v.valid, empty_iff v.valid)

      fewer_still : size taken.1 < size k.winkeyer_buffer
      fewer_still = omega (
        arith,
        fewer,
        length-contents 0 taken.1,
        ap length rest.1,
        length-drop (parameter_count c) (contents 0 b),
        length-contents 0 b,
      )

      split : queue k ≡ c ∷ contents 0 b
      split = contents-get v.valid held

      incomplete :
          (is_winkeyer_command c && leb (size k.winkeyer_buffer) (parameter_count c)) ≡ true
          → k.winkeyer_remaining_buffered_arguments ≢ 0
      incomplete few none_due = ground (
        arith,
        lacking_command c (contents 0 b),
        lacking_short (parameter_count c) (contents 0 b),
        ap (lacking 0) split,
        v.lacks,
        length-contents 0 k.winkeyer_buffer,
        ap length split,
      )

  pub winkeyer_update-Lowers :
      (clock : ℕ → ℕ) (n : ℕ) (k : Keyer F)
      → Sends k
      → k.winkeyer_remaining_buffered_arguments ≡ 0
      → Lowers winkeyer (clock n) k (winkeyer_update (no_paddles clock n) k)
  unfolding winkeyer_update poll_paddles check_dit_paddle check_dah_paddle
  winkeyer_update-Lowers clock n k v whole =
      if_either (Lowers winkeyer (clock n) k) (k.dit_buffered || k.dah_buffered)
        (λ pressed. absurd (ground (arith, v.no_dit, v.no_dah)))
        (λ _.
          if_either (Lowers winkeyer (clock n) k) (k.playing_bit == 0)
            (λ done.
              if_either (Lowers winkeyer (clock n) k) (not k.winkeyer_space_played)
                (λ gap. ground arith)
                (λ _.
                  if_either (Lowers winkeyer (clock n) k) (Buffer.empty k.winkeyer_buffer)
                    (λ nothing. ground (arith, empty_iff v.valid))
                    (λ held.
                      winkeyer_next-Lowers (clock n) k v whole ((==_iff k.playing_bit 0).0 done)
                        held)))
            (λ more. play_element-Lowers (clock n) k (ground arith)))
