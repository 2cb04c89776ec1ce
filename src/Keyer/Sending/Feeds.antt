-- ===== src/Keyer/Sending/Feeds.antt =====
-- A byte that `winkeyer_data` is given adds its code to the account, at the end.
use cwsd.Shared.{
  ℕ, zero, suc, ◌+◌, ◌-◌, ◌<◌, ◌≡◌, ◌≢◌, refl, sym, ap, ap₂, ◌∙◌, true, false, not, ◌&&◌, [], ◌∷◌,
  ◌++◌, append_assoc, append-nil, arith, if◌then◌else◌, if_both, if_either, ltb, ◌==◌, set, add_u8,
}
use cwsd.Buffer
use cwsd.Buffer.{size}
use cwsd.Buffer.Queue
use cwsd.Buffer.Inv.{put-IsValid, full_iff, size_bounds}
use cwsd.Buffer.Refine.{contents, length-contents, put_refines}
use cwsd.Keyer.Floats.{Floats}
use cwsd.Keyer.Winkeyer.{parameter_count, is_winkeyer_command, is_winkeyer_buffered_command}
use cwsd.Keyer.Machine.{Keyer, call}
use cwsd.Keyer.Commands.{execute, take_argument, take_command, take_buffered, winkeyer_data}
use cwsd.Keyer.Sending.{
  code, code_of, lacking, is_buffered_stream, arguments_of, keyed, Sends, account, queue, pending,
  is_kept,
}
use cwsd.Keyer.Sending.Code.{code-append, lacking-append, is_buffered_stream-append}
use cwsd.Keyer.Sending.Updates.{Quiet}

-- A byte that is an argument.
one_argument : (c n : ℕ) → 0 < n → (code n (c ∷ []) ≡ []) × (lacking n (c ∷ []) ≡ n - 1)
unfolding code lacking
one_argument c zero h = absurd (omega arith)
one_argument c (suc n) h = (refl, omega arith)

-- A byte that a buffered stream may hold.
buffered_argument : (c n : ℕ) → 0 < n → is_buffered_stream n (c ∷ []) ≡ true
unfolding is_buffered_stream
buffered_argument c zero h = absurd (omega arith)
buffered_argument c (suc n) h = refl

buffered_byte :
    (c : ℕ)
    → (is_winkeyer_command c ≡ true → is_winkeyer_buffered_command c ≡ true)
    → is_buffered_stream 0 (c ∷ []) ≡ true
unfolding is_buffered_stream
buffered_byte c proper = ground arith

-- A byte that is no argument.
one_byte :
    (c : ℕ)
    → (code 0 (c ∷ []) ≡ (if is_winkeyer_command c then [] else code_of c))
      × (lacking 0 (c ∷ []) ≡ (if is_winkeyer_command c then parameter_count c else 0))
unfolding code lacking arguments_of
one_byte c = (append-nil _, refl)

module _ {F : Floats} where
  -- The arguments that the keyer still waits for.
  abbrev pub waits : Keyer F → ℕ
  waits k = k.winkeyer_waiting_for_arguments + k.winkeyer_remaining_buffered_arguments

  -- The account has grown by the code of `c`.
  pub record Adds (c : ℕ) (k k' : Keyer F) : Type 0 where
    pub sends : Sends k'
    pub balance : account k' ≡ account k ++ code (waits k) (c ∷ [])
    pub lacks : waits k' ≡ lacking (waits k) (c ∷ [])

  -- No command but the one that clears the buffer touches what is sent.
  execute-Quiet : (k : Keyer F) → Sends k → k.winkeyer_pending_command ≢ 0x0a → Quiet k (execute k)
  unfolding execute call keyed
  execute-Quiet k v other = ground arith

  Adds-Quiet : {c : ℕ} {k l m : Keyer F} → Adds c k l → Quiet l m → Adds c k m
  Adds-Quiet p q = record {
    sends = q.sends;
    balance = q.balance ∙ p.balance;
    lacks = ap₂ ◌+◌ q.waiting q.remaining ∙ p.lacks;
  }

  -- A command or an argument that is remembered, and executed if it is complete.
  Adds-execute :
      (c : ℕ) (k k' : Keyer F)
      → Adds c k k'
      → k'.winkeyer_pending_command ≢ 0x0a
      → Adds c k (if k'.winkeyer_waiting_for_arguments == 0 then execute k' else k')
  Adds-execute c k k' taken other =
      if_both (Adds c k) (k'.winkeyer_waiting_for_arguments == 0)
        (Adds-Quiet taken (execute-Quiet k' taken.sends other)) taken

  take_argument-Adds :
      (c : ℕ) (k : Keyer F)
      → Sends k
      → 0 < k.winkeyer_waiting_for_arguments
      → Adds c k (take_argument c k)
  unfolding take_argument
  take_argument-Adds c k v some_wait =
      Adds-execute c k k'
        (ground (arith, one_argument c (waits k), append-nil (account k), v.one_waits))
        (v.no_clear (omega arith))
    where
      k' : Keyer F
      k' = record k {
        winkeyer_arguments = set k.winkeyer_arguments k.winkeyer_argument_index c;
        winkeyer_argument_index = add_u8 k.winkeyer_argument_index 1;
        winkeyer_waiting_for_arguments = k.winkeyer_waiting_for_arguments - 1;
      }

  take_command-Adds :
      (c : ℕ) (k : Keyer F)
      → Sends k
      → waits k ≡ 0
      → is_winkeyer_command c ≡ true
      → c ≢ 0x0a
      → Adds c k (take_command c k)
  unfolding take_command
  take_command-Adds c k v at_rest command other = Adds-execute c k k' taken other
    where
      k' : Keyer F
      k' = record k {
        winkeyer_pending_command = c;
        winkeyer_waiting_for_arguments = parameter_count c;
        winkeyer_argument_index = 0;
      }

      taken : Adds c k k'
      taken = ground (arith, one_byte c, append-nil (account k), at_rest)

  -- The buffer gets the byte at its end.
  queue-put :
      (c : ℕ) (k : Keyer F)
      → Sends k
      → k.winkeyer_buffer.full ≡ false
      → contents 0 (Buffer.put k.winkeyer_buffer c) ≡ queue k ++ c ∷ []
  unfolding Queue.push
  queue-put c k v room = ground (
    arith,
    put_refines 0 c v.valid,
    length-contents 0 k.winkeyer_buffer,
    full_iff v.valid,
    size_bounds v.valid,
  )

  -- The buffer is added to, and the count of the arguments is that of the stream.
  put-Adds :
      (c m : ℕ) (k : Keyer F)
      → Sends k
      → k.winkeyer_buffer.full ≡ false
      → k.winkeyer_waiting_for_arguments ≡ 0
      → m ≡ lacking k.winkeyer_remaining_buffered_arguments (c ∷ [])
      → is_buffered_stream k.winkeyer_remaining_buffered_arguments (c ∷ []) ≡ true
      → Adds c k (record k {
        winkeyer_buffer = Buffer.put k.winkeyer_buffer c;
        winkeyer_remaining_buffered_arguments = m;
      })
  put-Adds c m k v room no_wait count stream = record {
    sends = record {
      no_dit = v.no_dit;
      no_dah = v.no_dah;
      no_play = v.no_play;
      in_state = v.in_state;
      nothing_left = v.nothing_left;
      valid = put-IsValid c v.valid;
      buffered =
          ap (is_buffered_stream 0) longer
          ∙ is_buffered_stream-append 0 (queue k) (c ∷ [])
          ∙ ap₂ ◌&&◌ v.buffered (ap (λ n. is_buffered_stream n (c ∷ [])) v.lacks ∙ stream);
      lacks =
          ap (lacking 0) longer
          ∙ lacking-append 0 (queue k) (c ∷ [])
          ∙ ap (λ n. lacking n (c ∷ [])) v.lacks
          ∙ sym count;
      one_waits = λ some_wait. absurd (some_wait no_wait);
      no_clear = v.no_clear;
    };
    balance =
        ap (λ q. (keyed k.calls ++ pending k) ++ code 0 q) longer
        ∙ ap (λ es. (keyed k.calls ++ pending k) ++ es) (code-append 0 (queue k) (c ∷ []))
        ∙ sym (append_assoc (keyed k.calls ++ pending k) (code 0 (queue k)) _)
        ∙ ap (λ (n : ℕ). account k ++ code n (c ∷ [])) (v.lacks ∙ sym all);
    lacks = no_more ∙ count ∙ ap (λ n. lacking n (c ∷ [])) (sym all);
  }
    where
      longer : contents 0 (Buffer.put k.winkeyer_buffer c) ≡ queue k ++ c ∷ []
      longer = queue-put c k v room

      all : waits k ≡ k.winkeyer_remaining_buffered_arguments
      all = omega arith

      no_more : k.winkeyer_waiting_for_arguments + m ≡ m
      no_more = omega arith

  take_buffered-Adds :
      (c : ℕ) (k : Keyer F)
      → Sends k
      → k.winkeyer_buffer.full ≡ false
      → k.winkeyer_waiting_for_arguments ≡ 0
      → (k.winkeyer_remaining_buffered_arguments ≡ 0
          → is_winkeyer_command c ≡ true
          → is_winkeyer_buffered_command c ≡ true)
      → Adds c k (take_buffered c k)
  unfolding take_buffered
  take_buffered-Adds c k v room no_wait proper =
      if_either (Adds c k) (ltb 0 left)
        (λ more.
          put-Adds c (left - 1) k v room no_wait (ground (arith, one_argument c left))
            (buffered_argument c left (ground arith)))
        (λ none_left.
          if_either (Adds c k) (is_winkeyer_command c && is_winkeyer_buffered_command c)
            (λ command.
              put-Adds c (parameter_count c) k v room no_wait (ground (arith, one_byte c))
                (byte (ground arith)))
            (λ text.
              put-Adds c left k v room no_wait (ground (arith, one_byte c)) (byte (ground arith))))
    where
      left : ℕ
      left = k.winkeyer_remaining_buffered_arguments

      byte : left ≡ 0 → is_buffered_stream left (c ∷ []) ≡ true
      byte z = ap (λ n. is_buffered_stream n (c ∷ [])) z ∙ buffered_byte c (proper z)

  -- `winkeyer_data` adds the code of the byte to the account.
  pub winkeyer_data-Adds :
      (c : ℕ) (k : Keyer F) → Sends k → is_kept c k ≡ true → Adds c k (winkeyer_data c k)
  unfolding winkeyer_data is_kept
  winkeyer_data-Adds c k v kept =
      if_either (Adds c k) (ltb 0 k.winkeyer_waiting_for_arguments)
        (λ some_wait. take_argument-Adds c k v (ground arith))
        (λ no_wait.
          if_either (Adds c k)
            (k.winkeyer_remaining_buffered_arguments == 0
              && is_winkeyer_command c
              && not (is_winkeyer_buffered_command c))
            (λ now. take_command-Adds c k v (ground arith) (ground arith) (ground arith))
            (λ later. take_buffered-Adds c k v (ground arith) (ground arith) (ground arith)))
