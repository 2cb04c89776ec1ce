-- ===== src/Keyer/Sending/Letters.antt =====
-- A character or a command that the keyer takes off its buffer, and the element that begins.
use cwsd.Shared.{
  ℕ, zero, suc, ◌-◌, ◌≤◌, ◌≡◌, ◌≢◌, ◌⊎◌, refl, sym, ap, ◌∙◌, Bool, true, false, List, [], ◌∷◌, ◌++◌,
  append_assoc, append-nil, arith, if_both, if_either, Option-cases, inl, inr, length, drop, ◌==◌,
  ==_iff, ◌&&◌,
}
use cwsd.Buffer.{CircularBuffer}
use cwsd.Buffer.Inv.{IsValid}
use cwsd.Buffer.Refine.{contents}
use cwsd.Keyer.Floats.{Floats}
use cwsd.Keyer.CharPatterns.{get_char_pattern, decode_char-get_char_pattern}
use cwsd.Keyer.Winkeyer.{parameter_count, is_winkeyer_command, is_winkeyer_buffered_command}
use cwsd.Keyer.Machine.{Keyer, StateType, send_element, is_none}
use cwsd.Keyer.States.{play_element, playing_element, winkeyer_char, buffered_command}
use cwsd.Keyer.Sending.{
  elements, code, code_of, lacking, is_buffered_stream, keyed, Sends, account, queue, pending,
}
use cwsd.Keyer.Sending.Code.{code_letter, code_command, code_of_bar, code_of_lost, code_of_found}
use cwsd.Keyer.Sending.Updates.{Quiet, QuietIn, trans-Quiet}

elements_split :
    (bits n : ℕ) → n ≢ 0 → elements bits n ≡ playing_element bits n ∷ elements bits (n - 1)
unfolding elements
elements_split bits zero h = absurd (h refl)
elements_split bits (suc n) h =
    ap (λ (m : ℕ). playing_element bits (suc n) ∷ elements bits m) (omega arith)

playing_element_sounds : (bits n : ℕ) → is_none (playing_element bits n) ≡ false
unfolding playing_element
playing_element_sounds bits n = ground arith

module _ {F : Floats} where
  -- An element begins, which is the next of the account.
  pub record Begins (k k' : Keyer F) : Type 0 where
    pub sends : Sends k'
    pub balance : (keyed k'.calls ++ k'.sent_element ∷ pending k') ++ code 0 (queue k') ≡ account k
    pub sounds : is_none k'.sent_element ≡ false
    pub waiting : k'.winkeyer_waiting_for_arguments ≡ k.winkeyer_waiting_for_arguments
    pub remaining :
        k'.winkeyer_remaining_buffered_arguments ≡ k.winkeyer_remaining_buffered_arguments

  -- The update is quiet, or an element begins.
  abbrev pub Moves : Keyer F → StateType × Keyer F → Type 0
  Moves k r = QuietIn k r ⊎ ((r.0 ≡ send_element) × Begins k r.1)

  Quiet-Moves : {k l : Keyer F} {r : StateType × Keyer F} → Quiet k l → Moves l r → Moves k r
  Quiet-Moves p (inl (q, e, f)) = inl (trans-Quiet p q, e, f)
  Quiet-Moves p (inr (e, q)) = inr (
    e,
    record {
      sends = q.sends;
      balance = q.balance ∙ p.balance;
      sounds = q.sounds;
      waiting = q.waiting ∙ p.waiting;
      remaining = q.remaining ∙ p.remaining;
    },
  )

  pub play_element-Moves :
      (k : Keyer F)
      → Sends k
      → k.winkeyer_enabled ≡ true
      → k.playing_bit ≢ 0
      → Moves k (play_element k)
  unfolding play_element
  play_element-Moves k v on more = inr (
    refl,
    record {
      sends = ground arith;
      balance =
          ap (λ es. (keyed k.calls ++ es) ++ code 0 (queue k))
            (sym (elements_split k.playing_data k.playing_bit more));
      sounds = playing_element_sounds k.playing_data k.playing_bit;
      waiting = refl;
      remaining = refl;
    },
  )

  -- A character has been taken, and its elements are next.
  letter-Quiet :
      (c bits n : ℕ) (played : Bool) (b : CircularBuffer ℕ) (k : Keyer F)
      → Sends k
      → k.winkeyer_enabled ≡ true
      → k.playing_bit ≡ 0
      → IsValid b
      → queue k ≡ c ∷ contents 0 b
      → is_winkeyer_command c ≡ false
      → code_of c ≡ elements bits n
      → Quiet k (record k {
        winkeyer_buffer = b;
        playing_data = bits;
        playing_bit = n;
        winkeyer_space_played = played;
      })
  unfolding elements
  letter-Quiet c bits n played b k v on done w e no_command found =
      let (sum, more, stream) = code_letter c (contents 0 b) no_command in
      record {
        sends = record {
          no_dit = v.no_dit;
          no_dah = v.no_dah;
          no_play = v.no_play;
          in_state = v.in_state;
          nothing_left = λ off. absurd (ground arith);
          valid = w;
          buffered = sym stream ∙ ap (is_buffered_stream 0) (sym e) ∙ v.buffered;
          lacks = sym more ∙ ap (lacking 0) (sym e) ∙ v.lacks;
          one_waits = v.one_waits;
          no_clear = v.no_clear;
        };
        balance = rw (e, sum, found, done, append-nil, append_assoc) refl;
        waiting = refl;
        remaining = refl;
      }

  pub winkeyer_char-Moves :
      (c : ℕ) (b : CircularBuffer ℕ) (k : Keyer F)
      → Sends k
      → k.winkeyer_enabled ≡ true
      → k.playing_bit ≡ 0
      → IsValid b
      → queue k ≡ c ∷ contents 0 b
      → is_winkeyer_command c ≡ false
      → Moves k (winkeyer_char c (record k { winkeyer_buffer = b }))
  unfolding winkeyer_char elements
  winkeyer_char-Moves c b k v on done w e no_command =
      if_either (Moves k) (c == b'|')
        (λ bar. inl (silent (ap code_of ((==_iff c _).0 bar) ∙ code_of_bar), on, refl))
        (λ _. elim (Option-cases (get_char_pattern c)) [
          | inl lost ↦ rw (lost, winkeyer_char) (inl (silent (code_of_lost c lost), on, refl))
          | inr (p, found) ↦
              let (_, some_element, _, _) = decode_char-get_char_pattern c p found in
              let taken =
                letter-Quiet c p.sent_char_data p.sent_char_bits false b k v on done w e no_command
                  (code_of_found c found) in
              rw (found, winkeyer_char)
                (Quiet-Moves taken (play_element-Moves _ taken.sends on (omega arith)))
        ])
    where
      silent : code_of c ≡ [] → Quiet k (record k { winkeyer_buffer = b })
      silent nothing =
          letter-Quiet c k.playing_data k.playing_bit k.winkeyer_space_played b k v on done w e
            no_command (nothing ∙ ap (elements k.playing_data) (sym done))

  -- A buffered command has been taken with its arguments.
  pub command-Quiet :
      (c first : ℕ) (b : CircularBuffer ℕ) (k : Keyer F)
      → Sends k
      → IsValid b
      → is_winkeyer_command c ≡ true
      → (q : List ℕ) → queue k ≡ c ∷ q
      → parameter_count c ≤ length q
      → contents 0 b ≡ drop (parameter_count c) q
      → Quiet k (buffered_command c first (record k { winkeyer_buffer = b }))
  unfolding buffered_command is_winkeyer_buffered_command
  command-Quiet c first b k v w command q e few left =
      if_both (Quiet k) (c == 0x1c) (quiet (F.of_ℕ first)) (
        if_either (Quiet k) (c == 0x0a) (λ clears. absurd (ground (arith, facts)))
          (λ _. quiet k.winkeyer_speed_wpm))
    where
      facts : (is_winkeyer_buffered_command c && is_buffered_stream 0 (contents 0 b)) ≡ true
      facts =
          rw left
            (sym (code_command c q command few).2 ∙ ap (is_buffered_stream 0) (sym e) ∙ v.buffered)

      quiet : (wpm : F.Float) → Quiet k (record k { winkeyer_buffer = b; winkeyer_speed_wpm = wpm })
      quiet wpm =
          let (sum, more, stream) = code_command c q command few in
          record {
            sends = record {
              no_dit = v.no_dit;
              no_dah = v.no_dah;
              no_play = v.no_play;
              in_state = v.in_state;
              nothing_left = v.nothing_left;
              valid = w;
              buffered = ground arith;
              lacks = rw left (sym more ∙ ap (lacking 0) (sym e) ∙ v.lacks);
              one_waits = v.one_waits;
              no_clear = v.no_clear;
            };
            balance = rw (e, sum, left) refl;
            waiting = refl;
            remaining = refl;
          }
