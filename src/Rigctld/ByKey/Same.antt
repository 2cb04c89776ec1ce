-- ===== src/Rigctld/ByKey/Same.antt =====
-- Reading a client through the map of the clients is reading its record and storing it.
use cwsd.Shared.{
  ℕ, zero, suc, ◌≡◌, refl, ap, subst, sym, ◌∙◌, Bool, true, false, none, some, List, [], ◌∷◌, ◌++◌,
  length, codes, Option-cases, inl, inr,
}
use cwsd.Strings.{c_string}
use cwsd.Rigctld.Hamlib.{Hamlib, Answers, RigCall}
use cwsd.Rigctld.Interpret.{Outcome, answered, quits, throws, undefined, interpret_command}
use cwsd.Rigctld.Client.{
  RigctldClient, Received, bytes, failed, end_of_file, Written, Serving, Progress, kept, closed,
  broken, out_of_fuel, while_kept, split_line, append_response, send_responses, flushed, after_line,
  interpret_lines, read_from_client,
}
use cwsd.Rigctld.Client.Fd.{after_line-KeepsFd, KeepsFd, interpret_lines_done, interpret_lines_next}
use cwsd.Rigctld.Clients.{Clients, has_key, value_at, subscript, assign}
use cwsd.Rigctld.Clients.Keys.{subscript_present}
use cwsd.Rigctld.Clients.Assign.{value_at-assign, has_key-assign, assign-assign, assign-value_at}
use cwsd.Rigctld.ByKey.{
  append_to, send_response_to_client, send_all, set_read_buffer, flush_at, Table, Left, while_true,
  answer_line, answer_lines, read_at,
}

module _ (key : ℕ) (cs : Clients) (there : has_key key cs ≡ true) where
  -- The map with this client under the key.
  abbrev with_client : RigctldClient → Clients
  with_client c = assign key c cs

  at_key : (c : RigctldClient) → value_at key (with_client c) ≡ c
  at_key c = value_at-assign key c cs there

  subscript_with : (c : RigctldClient) → subscript key (with_client c) ≡ with_client c
  subscript_with c = subscript_present key (with_client c) (has_key-assign key key c cs ∙ there)

  -- A change through a reference.
  changed :
      (f : RigctldClient → RigctldClient) (c : RigctldClient)
      → assign key (f (value_at key (with_client c))) (with_client c) ≡ with_client (f c)
  changed f c = ap (λ d. assign key (f d) (with_client c)) (at_key c) ∙ assign-assign key c (f c) cs

  changed_there :
      (f : RigctldClient → RigctldClient) (c : RigctldClient)
      → assign key
          (f (value_at key (subscript key (with_client c))))
          (subscript key (with_client c))
        ≡ with_client (f c)
  changed_there f c =
      subst (λ m. assign key (f (value_at key m)) m ≡ with_client (f c)) (sym (subscript_with c))
        (changed f c)

  append-with_client :
      (text : List ℕ) (c : RigctldClient)
      → append_to text key (with_client c)
        ≡ with_client (record c { write_buffer = c.write_buffer ++ text })
  unfolding append_to
  append-with_client text c =
      changed_there (λ d. record d { write_buffer = d.write_buffer ++ text }) c

  send-with_client :
      (response : List ℕ) (c : RigctldClient)
      → send_response_to_client response key (with_client c)
        ≡ with_client (append_response response c)
  unfolding send_response_to_client append_response
  send-with_client response c =
      ap (append_to (b'\n' ∷ []) key) (append-with_client response c)
      ∙ append-with_client (b'\n' ∷ []) (record c { write_buffer = c.write_buffer ++ response })

  send_all-with_client :
      (rs : List (List ℕ)) (c : RigctldClient)
      → send_all rs key (with_client c) ≡ with_client (send_responses rs c)
  unfolding send_all send_responses
  send_all-with_client [] c = refl
  send_all-with_client (r ∷ rs) c =
      ap (send_all rs key) (send-with_client r c) ∙ send_all-with_client rs (append_response r c)

module _ (h : Hamlib) where
  -- What reading the record at hand makes of the map.
  abbrev pub stored : ℕ → Clients → Progress h → Left h
  stored key cs (kept s) = some (true, record { clients = assign key s.client cs; calls = s.calls })
  stored key cs (closed s) =
      some (false, record { clients = assign key s.client cs; calls = s.calls })
  stored key cs broken = none
  stored key cs out_of_fuel = none

  module _ (flush : Written) (key : ℕ) (cs : Clients) (there : has_key key cs ≡ true) where
    abbrev table : Serving h → Table h
    table s = record { clients = assign key s.client cs; calls = s.calls }

    replied :
        (rs : List (List ℕ)) (rest : List ℕ) (c : RigctldClient)
        → c.fd ≡ key
        → set_read_buffer rest key
            (send_all rs (value_at key (assign key c cs)).fd (assign key c cs))
          ≡ assign key (record (send_responses rs c) { read_buffer = rest }) cs
    replied rs rest c same =
        ap (λ fd. set_read_buffer rest key (send_all rs fd (assign key c cs)))
          (ap (λ d. d.fd) (at_key key cs there c) ∙ same)
        ∙ ap (set_read_buffer rest key) (send_all-with_client key cs there rs c)
        ∙ changed key cs there (λ d. record d { read_buffer = rest }) (send_responses rs c)

    answer_line-stored :
        (s : Serving h) (rest : List ℕ) (o : Outcome h)
        → s.client.fd ≡ key
        → answer_line h flush key (table s) rest o ≡ stored key cs (after_line h flush s rest o)
    unfolding answer_line after_line send_all send_responses flush_at
    answer_line-stored s rest (answered calls responses) same =
        ap (λ t. some (true, record { clients = t; calls = s.calls ++ calls }))
          (replied responses rest s.client same)
    answer_line-stored s rest throws same =
        ap (λ t. some (true, record { clients = t; calls = s.calls }))
          (replied (codes "RPRT -1" ∷ []) rest s.client same)
    answer_line-stored s rest quits same =
        ap (λ t. some (false, record { clients = t; calls = s.calls }))
          (ap
              (λ fd.
                flush_at flush fd
                  (send_response_to_client (codes "RPRT 0") fd (assign key s.client cs)))
              (ap (λ d. d.fd) (at_key key cs there s.client) ∙ same)
            ∙ ap (flush_at flush key) (send-with_client key cs there (codes "RPRT 0") s.client)
            ∙ changed_there key cs there (flushed flush)
                (append_response (codes "RPRT 0") s.client))
    answer_line-stored s rest undefined same = refl

    while_stored :
        (p : Progress h) (f : Table h → Left h) (g : Serving h → Progress h)
        → KeepsFd h key p
        → ((s : Serving h) → s.client.fd ≡ key → f (table s) ≡ stored key cs (g s))
        → while_true h (stored key cs p) f ≡ stored key cs (while_kept h p g)
    while_stored (kept s) f g same next = next s same
    while_stored (closed s) f g same next = refl
    while_stored broken f g same next = refl
    while_stored out_of_fuel f g same next = refl

    module _ (rig_model : ℕ) (rig : List (RigCall h) → Answers h) where
      answer_lines_done :
          (n : ℕ) (t : Table h)
          → split_line (value_at key t.clients).read_buffer ≡ none
          → answer_lines h flush key rig_model rig (suc n) t ≡ some (true, t)
      unfolding answer_lines
      answer_lines_done n t missing = rw (missing, answer_lines) refl

      answer_lines_next :
          (n : ℕ) (t : Table h) {line rest : List ℕ}
          → split_line (value_at key t.clients).read_buffer ≡ some (line, rest)
          → answer_lines h flush key rig_model rig (suc n) t
            ≡ while_true h
                (answer_line h flush key t rest (interpret_command h rig_model (rig t.calls) line))
                (answer_lines h flush key rig_model rig n)
      unfolding answer_lines
      answer_lines_next n t found = rw (found, answer_lines) refl

      answer_lines-stored :
          (n : ℕ) (s : Serving h)
          → s.client.fd ≡ key
          → answer_lines h flush key rig_model rig n (table s)
            ≡ stored key cs (interpret_lines h rig_model rig flush n s)
      unfolding answer_lines interpret_lines
      answer_lines-stored zero s same = refl
      answer_lines-stored (suc n) s same = elim (Option-cases (split_line s.client.read_buffer)) [
        | inl missing ↦
            answer_lines_done n (table s) (ap (λ c. split_line c.read_buffer) here ∙ missing)
            ∙ ap (stored key cs) (sym (interpret_lines_done h rig_model rig flush n s missing))
        | inr ((line, rest), found) ↦
            let o = interpret_command h rig_model (rig s.calls) line in
            let p = after_line h flush s rest o in
            answer_lines_next n (table s) (ap (λ c. split_line c.read_buffer) here ∙ found)
            ∙ ap (λ l. while_true h l (answer_lines h flush key rig_model rig n))
                (answer_line-stored s rest o same)
            ∙ while_stored p (answer_lines h flush key rig_model rig n)
                (interpret_lines h rig_model rig flush n)
                (subst (λ fd. KeepsFd h fd p) same (after_line-KeepsFd h flush s rest o))
                (answer_lines-stored n)
            ∙ ap (stored key cs) (sym (interpret_lines_next h rig_model rig flush n s found))
      ]
        where
          here : value_at key (assign key s.client cs) ≡ s.client
          here = at_key key cs there s.client

      -- For a client that is in the map under its own descriptor, `read_from_client` on the map,
      -- where the client is a reference and each reply goes to the client of the descriptor,
      -- whatever is received, leaves the map with what `read_from_client` on the record makes of
      -- it stored under that key, so that no other client changes, and makes the same calls of the
      -- rig; it is undefined or keeps the client just when that does.
      pub read_at-stored :
          (rig_disconnected : Bool) (received : Received) (calls : List (RigCall h))
          → (value_at key cs).fd ≡ key
          → let s : Serving h = record { client = value_at key cs; calls = calls } in
            read_at h flush key rig_model rig rig_disconnected received
              (record { clients = cs; calls = calls })
            ≡ stored key cs (read_from_client h rig_model rig flush rig_disconnected received s)
      unfolding read_at read_from_client
      read_at-stored rig_disconnected failed calls same =
          ap (λ t. some (false, record { clients = t; calls = calls }))
            (sym (assign-value_at key cs))
      read_at-stored rig_disconnected end_of_file calls same =
          ap (λ t. some (false, record { clients = t; calls = calls }))
            (sym (assign-value_at key cs))
      read_at-stored true (bytes msg) calls same = refl
      read_at-stored false (bytes msg) calls same =
          let client : RigctldClient = record (value_at key cs) {
            read_buffer = (value_at key cs).read_buffer ++ c_string msg;
          } in
          answer_lines-stored (suc (length client.read_buffer))
            (record { client = client; calls = calls }) same
