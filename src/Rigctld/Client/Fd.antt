-- ===== src/Rigctld/Client/Fd.antt =====
-- A turn of the loop over the lines, and the descriptor of a client.
use cwsd.Shared.{
  ℕ, zero, suc, ◌≡◌, refl, sym, ap, ◌∙◌, subst, Bool, true, false, Option, none, some, List, [],
  ◌∷◌, ◌++◌, Option-cases, inl, inr, length, codes,
}
use cwsd.Strings.{c_string}
use cwsd.Rigctld.Hamlib.{Hamlib, Answers, RigCall}
use cwsd.Rigctld.Interpret.{Outcome, answered, quits, throws, undefined, interpret_command}
use cwsd.Rigctld.Client.{
  RigctldClient, Received, bytes, failed, end_of_file, Written, refused, written, Serving, Progress,
  kept, closed, broken, out_of_fuel, while_kept, split_line, append_response, send_responses,
  flushed, after_line, interpret_lines, appended, read_from_client, write_from_client,
}

send_responses-fd : (rs : List (List ℕ)) (c : RigctldClient) → (send_responses rs c).fd ≡ c.fd
unfolding append_response send_responses
send_responses-fd [] c = refl
send_responses-fd (r ∷ rs) c = send_responses-fd rs (append_response r c)

fd_or : ℕ → Option RigctldClient → ℕ
fd_or fd none = fd
fd_or fd (some c) = c.fd

write_parts-fd :
    (w : Written) (fd : ℕ) (text out : List ℕ)
    → fd_or fd (write_from_client w (record { fd = fd; read_buffer = text; write_buffer = out }))
      ≡ fd
unfolding write_from_client fd_or
write_parts-fd w fd text [] = refl
write_parts-fd refused fd text (b ∷ bs) = refl
write_parts-fd (written n) fd text (b ∷ bs) = refl

pub write_from_client-fd :
    (w : Written) (c : RigctldClient) {d : RigctldClient}
    → write_from_client w c ≡ some d
    → d.fd ≡ c.fd
unfolding fd_or
write_from_client-fd w c e =
    ap (fd_or c.fd) (sym e) ∙ write_parts-fd w c.fd c.read_buffer c.write_buffer

flushed-fd : (w : Written) (c : RigctldClient) → (flushed w c).fd ≡ c.fd
unfolding flushed
flushed-fd w c = elim (Option-cases (write_from_client w c)) [
  | inl failing ↦ rw (failing, flushed) refl
  | inr (d, sent) ↦ rw (sent, flushed) (write_from_client-fd w c sent)
]

module _ (h : Hamlib) where
  -- The client is still the one with this descriptor.
  abbrev pub KeepsFd : ℕ → Progress h → Type 0
  KeepsFd fd (kept s) = s.client.fd ≡ fd
  KeepsFd fd (closed s) = s.client.fd ≡ fd
  KeepsFd fd broken = Unit
  KeepsFd fd out_of_fuel = Unit

  pub after_line-KeepsFd :
      (flush : Written) (s : Serving h) (rest : List ℕ) (o : Outcome h)
      → KeepsFd s.client.fd (after_line h flush s rest o)
  unfolding after_line append_response
  after_line-KeepsFd flush s rest (answered cs rs) = send_responses-fd rs s.client
  after_line-KeepsFd flush s rest throws = refl
  after_line-KeepsFd flush s rest quits =
      flushed-fd flush (append_response (codes "RPRT 0") s.client)
  after_line-KeepsFd flush s rest undefined = tt

  while_kept-KeepsFd :
      (fd : ℕ) (p : Progress h) (f : Serving h → Progress h)
      → KeepsFd fd p
      → ((s : Serving h) → s.client.fd ≡ fd → KeepsFd fd (f s))
      → KeepsFd fd (while_kept h p f)
  while_kept-KeepsFd fd (kept s) f same later = later s same
  while_kept-KeepsFd fd (closed s) f same later = same
  while_kept-KeepsFd fd broken f same later = tt
  while_kept-KeepsFd fd out_of_fuel f same later = tt

  module _ (rig_model : ℕ) (rig : List (RigCall h) → Answers h) (flush : Written) where
    pub interpret_lines_done :
        (n : ℕ) (s : Serving h)
        → split_line s.client.read_buffer ≡ none
        → interpret_lines h rig_model rig flush (suc n) s ≡ kept s
    unfolding interpret_lines
    interpret_lines_done n s missing = rw (missing, interpret_lines) refl

    pub interpret_lines_next :
        (n : ℕ) (s : Serving h) {line rest : List ℕ}
        → split_line s.client.read_buffer ≡ some (line, rest)
        → interpret_lines h rig_model rig flush (suc n) s
          ≡ while_kept h
              (after_line h flush s rest (interpret_command h rig_model (rig s.calls) line))
              (interpret_lines h rig_model rig flush n)
    unfolding interpret_lines
    interpret_lines_next n s found = rw (found, interpret_lines) refl

    interpret_lines-KeepsFd :
        (n fd : ℕ) (s : Serving h)
        → s.client.fd ≡ fd
        → KeepsFd fd (interpret_lines h rig_model rig flush n s)
    unfolding interpret_lines
    interpret_lines-KeepsFd zero fd s e = tt
    interpret_lines-KeepsFd (suc n) fd s e = elim (Option-cases (split_line s.client.read_buffer)) [
      | inl missing ↦ subst (KeepsFd fd) (sym (interpret_lines_done n s missing)) e
      | inr ((line, rest), found) ↦
          let o = interpret_command h rig_model (rig s.calls) line in
          subst (KeepsFd fd) (sym (interpret_lines_next n s found)) (
            while_kept-KeepsFd fd (after_line h flush s rest o)
              (interpret_lines h rig_model rig flush n)
              (subst (λ x. KeepsFd x (after_line h flush s rest o)) e
                (after_line-KeepsFd flush s rest o))
              (λ t same. interpret_lines-KeepsFd n fd t same))
    ]

    pub read_from_client-KeepsFd :
        (rig_disconnected : Bool) (r : Received) (s : Serving h)
        → KeepsFd s.client.fd (read_from_client h rig_model rig flush rig_disconnected r s)
    unfolding read_from_client
    read_from_client-KeepsFd rig_disconnected failed s = refl
    read_from_client-KeepsFd rig_disconnected end_of_file s = refl
    read_from_client-KeepsFd true (bytes msg) s = refl
    read_from_client-KeepsFd false (bytes msg) s =
        interpret_lines-KeepsFd (suc (length (s.client.read_buffer ++ c_string msg))) s.client.fd
          (appended h (c_string msg) s) refl
