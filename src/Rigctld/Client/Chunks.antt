-- ===== src/Rigctld/Client/Chunks.antt =====
-- The read buffer: the turns that its lines take, and the pieces in which a client's bytes arrive.
use cwsd.Shared.{
  ℕ, zero, suc, ◌<◌, ◌≡◌, ◌≢◌, sym, ap, ◌∙◌, subst, true, false, none, some, List, ◌++◌, length,
  append_assoc, length-append, All-append, Bool, Option-cases, inl, inr, arith,
}
use cwsd.Strings.{c_string}
use cwsd.Rigctld.Hamlib.{Hamlib, Answers, RigCall}
use cwsd.Rigctld.Interpret.{Outcome, interpret_command}
use cwsd.Rigctld.Client.Fd.{interpret_lines_done, interpret_lines_next}
use cwsd.Rigctld.Client.{
  Received, bytes, failed, end_of_file, Serving, Progress, kept, Written, out_of_fuel, while_kept,
  split_line, after_line, interpret_lines, appended, read_from_client,
}
use cwsd.Rigctld.Client.Lines.{
  split_line-append, IsText, c_string_lem, while_kept_cong, while_kept_inv, while_kept_ends,
  after_line_ends, served, after_line_rest, after_line-appended, split_line-length,
}

module _ (h : Hamlib) where
  module _ (rig_model : ℕ) (rig : List (RigCall h) → Answers h) (flush : Written) where
    run : ℕ → Serving h → Progress h
    run n s = interpret_lines h rig_model rig flush n s

    outcome : Serving h → List ℕ → Outcome h
    outcome s line = interpret_command h rig_model (rig s.calls) line

    no_line :
        (n : ℕ) (s : Serving h) → split_line s.client.read_buffer ≡ none → run (suc n) s ≡ kept s
    unfolding run
    no_line n s missing = interpret_lines_done h rig_model rig flush n s missing

    next_line :
        (n : ℕ) (s : Serving h) {line rest : List ℕ}
        → split_line s.client.read_buffer ≡ some (line, rest)
        → run (suc n) s ≡ while_kept h (after_line h flush s rest (outcome s line)) (run n)
    unfolding run outcome
    next_line n s found = interpret_lines_next h rig_model rig flush n s found

    shorter :
        (s : Serving h) {line rest : List ℕ} {t : Serving h}
        → split_line s.client.read_buffer ≡ some (line, rest)
        → after_line h flush s rest (outcome s line) ≡ kept t
        → length t.client.read_buffer < length s.client.read_buffer
    shorter s {line = line} {rest = rest} found e =
        let less = split_line-length s.client.read_buffer found in
        let now = ap length (after_line_rest h flush s rest (outcome s line) e) in omega arith

    run-fuel :
        (n m : ℕ) (s : Serving h)
        → length s.client.read_buffer < n
        → length s.client.read_buffer < m
        → run n s ≡ run m s
    run-fuel zero m s below above = absurd (omega arith)
    run-fuel (suc n) zero s below above = absurd (omega arith)
    run-fuel (suc n) (suc m) s below above = elim (Option-cases (split_line s.client.read_buffer)) [
      | inl missing ↦ no_line n s missing ∙ sym (no_line m s missing)
      | inr ((line, rest), found) ↦
          next_line n s found
          ∙ while_kept_cong h (after_line h flush s rest (outcome s line)) (run n) (run m)
              (λ t e. let less = shorter s found e in run-fuel n m t (omega arith) (omega arith))
          ∙ sym (next_line m s found)
    ]

    run_ends : (n : ℕ) (s : Serving h) → length s.client.read_buffer < n → run n s ≢ out_of_fuel
    run_ends zero s below = absurd (omega arith)
    run_ends (suc n) s below = elim (Option-cases (split_line s.client.read_buffer)) [
      | inl missing ↦ subst (λ p. p ≢ out_of_fuel) (sym (no_line n s missing)) (λ e. cc)
      | inr ((line, rest), found) ↦
          subst (λ p. p ≢ out_of_fuel) (sym (next_line n s found))
            (while_kept_ends h (after_line h flush s rest (outcome s line)) (run n)
              (after_line_ends h flush s rest (outcome s line))
              (λ t e. let less = shorter s found e in run_ends n t (omega arith)))
    ]

    -- Bytes that arrive while lines are left wait behind them.
    run-appended :
        (n m k : ℕ) (s t : Serving h) (ds : List ℕ)
        → length s.client.read_buffer < n
        → length (s.client.read_buffer ++ ds) < m
        → length (t.client.read_buffer ++ ds) < k
        → run n s ≡ kept t
        → run m (appended h ds s) ≡ run k (appended h ds t)
    unfolding outcome
    run-appended zero m k s t ds below above over e = absurd (omega arith)
    run-appended (suc n) zero k s t ds below above over e = absurd (omega arith)
    run-appended (suc n) (suc m) k s t ds below above over e =
        elim (Option-cases (split_line s.client.read_buffer)) [
          | inl missing ↦
              let same = ap (λ p. served h p s) (sym (no_line n s missing) ∙ e) in
              ap (λ u. run (suc m) (appended h ds u)) same
              ∙ run-fuel (suc m) k (appended h ds t)
                  (subst (λ u. length (u.client.read_buffer ++ ds) < suc m) same above) over
          | inr ((line, rest), found) ↦
              let o = outcome s line in
              let (u, mid, done) =
                while_kept_inv h (after_line h flush s rest o) (run n)
                  (sym (next_line n s found) ∙ e) in
              let less = shorter s found mid in
              let lengths = length-append s.client.read_buffer ds in
              let lengths_after = length-append u.client.read_buffer ds in
              next_line m (appended h ds s) (split_line-append s.client.read_buffer ds found)
              ∙ ap (λ p. while_kept h p (run m)) (after_line-appended h flush s rest ds o mid)
              ∙ run-appended n m k u t ds (omega arith) (omega arith) over done
        ]

    read_after_read :
        (s t : Serving h) (cs ds : List ℕ)
        → run (suc (length (s.client.read_buffer ++ cs))) (appended h cs s) ≡ kept t
        → run (suc (length (s.client.read_buffer ++ (cs ++ ds)))) (appended h (cs ++ ds) s)
          ≡ run (suc (length (t.client.read_buffer ++ ds))) (appended h ds t)
    read_after_read s t cs ds e =
        subst
          (λ text.
            run (suc (length text)) (record s { client = record s.client { read_buffer = text } })
            ≡ run (suc (length (t.client.read_buffer ++ ds))) (appended h ds t))
          (append_assoc s.client.read_buffer cs ds)
          (run-appended (suc (length (s.client.read_buffer ++ cs)))
            (suc (length ((s.client.read_buffer ++ cs) ++ ds)))
            (suc (length (t.client.read_buffer ++ ds))) (appended h cs s) t ds (omega arith)
            (omega arith) (omega arith) e)

    -- With the rig connected, what a client is answered and what the rig is told do not depend on
    -- how the client's bytes are cut into reads: if a first read keeps the client, a second one ends
    -- as a single read of all the bytes does. The bytes of the two reads are not zero.
    pub read_from_client-appended :
        (s t : Serving h) (cs ds : List ℕ)
        → IsText cs
        → IsText ds
        → read_from_client h rig_model rig flush false (bytes cs) s ≡ kept t
        → read_from_client h rig_model rig flush false (bytes ds) t
          ≡ read_from_client h rig_model rig flush false (bytes (cs ++ ds)) s
    unfolding read_from_client run
    read_from_client-appended s t cs ds cs_text ds_text e =
        let first = c_string_lem cs cs_text in
        let second = c_string_lem ds ds_text in
        let both = c_string_lem (cs ++ ds) (All-append (λ c. c ≢ 0) cs ds cs_text ds_text) in
        rw (second, both) (sym (read_after_read s t cs ds (rw first at e)))

    -- A read ends: it does not run out of the fuel that the length of the read buffer gives.
    pub read_from_client_ends :
        (s : Serving h) (rig_disconnected : Bool) (msg : Received)
        → read_from_client h rig_model rig flush rig_disconnected msg s ≢ out_of_fuel
    unfolding read_from_client run
    read_from_client_ends s rig_disconnected failed = λ e. cc
    read_from_client_ends s rig_disconnected end_of_file = λ e. cc
    read_from_client_ends s true (bytes msg) = λ e. cc
    read_from_client_ends s false (bytes msg) =
        run_ends (suc (length (s.client.read_buffer ++ c_string msg))) (appended h (c_string msg) s)
          (omega arith)
