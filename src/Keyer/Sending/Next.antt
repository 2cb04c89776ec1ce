-- ===== src/Keyer/Sending/Next.antt =====
-- The state `winkeyer`: the next element, or the next byte of the buffer.
use cwsd.Shared.{
  ℕ, ◌≤◌, ◌≡◌, refl, ap, true, false, not, List, ◌∷◌, arith, if_both, if_either, inl, length, drop,
  ◌==◌, ==_iff, leb, ◌&&◌, ◌||◌, get_or,
}
use cwsd.Buffer
use cwsd.Buffer.{CircularBuffer, size}
use cwsd.Buffer.Inv.{IsValid, get-IsValid}
use cwsd.Buffer.Refine.{contents, length-contents}
use cwsd.Keyer.Floats.{Floats}
use cwsd.Keyer.Winkeyer.{parameter_count, is_winkeyer_command}
use cwsd.Keyer.Machine.{Keyer, check_dit_paddle, check_dah_paddle, poll_paddles}
use cwsd.Keyer.States.{winkeyer_next, winkeyer_update, get_arguments}
use cwsd.Keyer.Sending.{Sends, no_paddles, queue}
use cwsd.Keyer.Sending.Front.{contents-get, contents-get_arguments}
use cwsd.Keyer.Sending.Updates.{Quiet, same_Quiet}
use cwsd.Keyer.Sending.Letters.{Moves, play_element-Moves, winkeyer_char-Moves, command-Quiet}

module _ {F : Floats} where
  winkeyer_next-Moves :
      (k : Keyer F)
      → Sends k
      → k.winkeyer_enabled ≡ true
      → k.playing_bit ≡ 0
      → Buffer.empty k.winkeyer_buffer ≡ false
      → Moves k (winkeyer_next k)
  unfolding winkeyer_next
  winkeyer_next-Moves k v on done held =
      if_either (Moves k)
        (is_winkeyer_command c && leb (Buffer.size k.winkeyer_buffer) (parameter_count c))
        (λ _. inl (same_Quiet k v, refl, refl))
        (λ here.
          if_either (Moves k) (is_winkeyer_command c)
            (λ command. inl (
              command-Quiet c (get_or taken.0 0 0) taken.1 k v (rest.0) command (contents 0 b) split
                  (few here command) rest.1,
              refl,
              refl,
            ))
            (λ no_command.
              winkeyer_char-Moves c b k v on done (get-IsValid 0 v.valid) split no_command))
    where
      c : ℕ
      c = Buffer.peek k.winkeyer_buffer 0

      b : CircularBuffer ℕ
      b = (Buffer.get k.winkeyer_buffer 0).1

      taken : List ℕ × CircularBuffer ℕ
      taken = get_arguments (parameter_count c) b

      split : queue k ≡ c ∷ contents 0 b
      split = contents-get v.valid held

      rest : IsValid taken.1 × (contents 0 taken.1 ≡ drop (parameter_count c) (contents 0 b))
      rest = contents-get_arguments (parameter_count c) (get-IsValid 0 v.valid)

      few :
          (is_winkeyer_command c && leb (Buffer.size k.winkeyer_buffer) (parameter_count c)) ≡ false
          → is_winkeyer_command c ≡ true
          → parameter_count c ≤ length (contents 0 b)
      few here command = ground (arith, length-contents 0 k.winkeyer_buffer, ap length split)

  -- The update of `winkeyer` is quiet, or begins the next element of the account.
  pub winkeyer_update-Moves :
      (clock : ℕ → ℕ) (n : ℕ) (k : Keyer F)
      → Sends k
      → k.winkeyer_enabled ≡ true
      → Moves k (winkeyer_update (no_paddles clock n) k)
  unfolding winkeyer_update poll_paddles check_dit_paddle check_dah_paddle
  winkeyer_update-Moves clock n k v on =
      if_either (Moves k) (k.dit_buffered || k.dah_buffered)
        (λ pressed. absurd (ground (arith, v.no_dit, v.no_dah)))
        (λ _.
          if_either (Moves k) (k.playing_bit == 0)
            (λ done. if_both (Moves k) (not k.winkeyer_space_played) (inl (spaced, on, refl)) (
              if_either (Moves k) (Buffer.empty k.winkeyer_buffer)
                (λ _. inl (same_Quiet k v, refl, refl))
                (λ held. winkeyer_next-Moves k v on ((==_iff k.playing_bit 0).0 done) held)))
            (λ more. play_element-Moves k v on (ground arith)))
    where
      spaced : Quiet k (record k { winkeyer_space_played = true })
      spaced = ground arith
