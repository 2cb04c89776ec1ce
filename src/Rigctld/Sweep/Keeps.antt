-- ===== src/Rigctld/Sweep/Keeps.antt =====
-- What the loop over the descriptors keeps of the map of clients: its keys are the descriptors, and
-- only `accept_client` adds one.
use cwsd.Shared.{
  ℕ, ◌≡◌, refl, sym, ap, ◌∙◌, subst, true, Option, none, some, List, [], ◌∷◌, All, inl, inr,
  Option-cases, if_both, if◌then◌else◌,
}
use cwsd.Rigctld.Hamlib.{Hamlib, Answers, RigCall}
use cwsd.Rigctld.Client.{
  RigctldClient, Received, Written, Progress, kept, closed, broken, out_of_fuel, read_from_client,
  write_from_client,
}
use cwsd.Rigctld.Client.Fd.{KeepsFd, read_from_client-KeepsFd, write_from_client-fd}
use cwsd.Rigctld.Clients.{Clients, keys, has_key, value_at, subscript, assign}
use cwsd.Rigctld.Clients.Keys.{
  WellKeyed, has_key-keys, subscript_present, value_at-fd, keys-assign, assign-WellKeyed,
}
use cwsd.Rigctld.Poll.{Report, PollFd, poll_declares_error}
use cwsd.Rigctld.Sweep.{
  Sweep, serving_at, after_read, on_pollin, on_pollout, heard, visit, visit_clients,
}

module _ (h : Hamlib) where
  -- From one state of the loop to a later one that has the same keys.
  pub record Keeps (w v : Sweep h) : Type 0 where
    pub well : WellKeyed v.clients
    pub same_keys : keys v.clients ≡ keys w.clients
    pub same_add : v.fd_to_add ≡ w.fd_to_add

  keep : (w : Sweep h) → WellKeyed w.clients → Keeps w w
  keep w k = record { well = k; same_keys = refl; same_add = refl }

  chained : (u v w : Sweep h) → Keeps u v → Keeps v w → Keeps u w
  chained u v w a b = record {
    well = b.well;
    same_keys = b.same_keys ∙ a.same_keys;
    same_add = b.same_add ∙ a.same_add;
  }

  -- `P` holds of the state, if there is one.
  abbrev pub If : (Sweep h → Type 0) → Option (Sweep h) → Type 0
  If P none = Unit
  If P (some w) = P w

  If-some : (P : Sweep h → Type 0) {o : Option (Sweep h)} {w : Sweep h} → If P o → o ≡ some w → P w
  If-some P i e = subst (If P) e i

  module _ (fd : ℕ) (w : Sweep h) (k : WellKeyed w.clients) (p : has_key fd w.clients ≡ true) where
    present : subscript fd w.clients ≡ w.clients
    present = subscript_present fd w.clients p

    stored :
        (c : RigctldClient)
        → c.fd ≡ fd
        → WellKeyed (assign fd c (subscript fd w.clients))
          × (keys (assign fd c (subscript fd w.clients)) ≡ keys w.clients)
    stored c e =
        subst (λ cs. WellKeyed (assign fd c cs) × (keys (assign fd c cs) ≡ keys w.clients))
          (sym present) (assign-WellKeyed fd c w.clients e k, keys-assign fd c w.clients)

    found : (value_at fd (subscript fd w.clients)).fd ≡ fd
    found =
        subst (λ (cs : Clients). (value_at fd cs).fd ≡ fd) (sym present)
          (value_at-fd fd w.clients k p)

    after_read-Keeps : (q : Progress h) → KeepsFd h fd q → If (Keeps w) (after_read h fd w q)
    unfolding after_read
    after_read-Keeps (kept s) e =
        let (well, same) = stored s.client e in
        record { well = well; same_keys = same; same_add = refl }
    after_read-Keeps (closed s) e =
        let (well, same) = stored s.client e in
        record { well = well; same_keys = same; same_add = refl }
    after_read-Keeps broken e = tt
    after_read-Keeps out_of_fuel e = tt

    on_pollout-Keeps : (wrote : Written) → Keeps w (on_pollout h fd wrote w)
    unfolding on_pollout
    on_pollout-Keeps wrote =
        elim (Option-cases (write_from_client wrote (value_at fd (subscript fd w.clients)))) [
          | inl refused ↦
              rw (refused, on_pollout)
                (record {
                  well = subst WellKeyed (sym present) k;
                  same_keys = ap keys present;
                  same_add = refl;
                })
          | inr (c, sent) ↦
              let (well, same) =
                stored c (
                  write_from_client-fd wrote (value_at fd (subscript fd w.clients)) sent ∙ found) in
              rw (sent, on_pollout) (record { well = well; same_keys = same; same_add = refl })
        ]

    on_pollin-Keeps :
        (rig_model : ℕ) (rig : List (RigCall h) → Answers h) (received : Received) (flush : Written)
        → If (Keeps w) (on_pollin h rig_model rig none fd received flush w)
    unfolding on_pollin
    on_pollin-Keeps rig_model rig received flush =
        let q =
          read_from_client h rig_model rig flush w.rig_disconnected received (serving_at h fd w) in
        after_read-Keeps q (
          subst (λ x. KeepsFd h x q) found
            (read_from_client-KeepsFd h rig_model rig flush w.rig_disconnected received
              (serving_at h fd w)))

  after-Keeps :
      (w : Sweep h) (o : Option (Sweep h)) (f : Sweep h → Option (Sweep h))
      → If (Keeps w) o
      → ((v : Sweep h) → Keeps w v → If (Keeps v) (f v))
      → If (Keeps w) (elim o [ none ↦ none | some v ↦ f v ])
  after-Keeps w none f i later = tt
  after-Keeps w (some v) f i later = If_then (f v) (later v i)
    where
      If_then : (o : Option (Sweep h)) → If (Keeps v) o → If (Keeps w) o
      If_then none j = tt
      If_then (some u) j = chained w v u i j

  module _ (rig_model : ℕ) (rig : List (RigCall h) → Answers h) where
    visit-Keeps :
        (fd : ℕ) (r : Report) (w : Sweep h)
        → WellKeyed w.clients
        → has_key fd w.clients ≡ true
        → If (Keeps w) (visit h rig_model rig none fd r w)
    unfolding visit
    visit-Keeps fd r w k p =
        if_both (If (Keeps w)) (poll_declares_error r.revents)
          (record { well = k; same_keys = refl; same_add = refl })
          (after-Keeps w
            (if r.revents.pollin
              then on_pollin h rig_model rig none fd r.received r.flush w
              else some w)
            (λ v.
              some
                (heard h r.messages (if r.revents.pollout then on_pollout h fd r.wrote v else v)))
            (if_both (If (Keeps w)) r.revents.pollin
              (on_pollin-Keeps fd w k p rig_model rig r.received r.flush) (keep w k))
            (λ v kv.
              let pv = has_key-keys fd v.clients w.clients kv.same_keys ∙ p in
              let out =
                if_both (Keeps v) r.revents.pollout (on_pollout-Keeps fd v kv.well pv r.wrote)
                  (keep v kv.well) in
              record { well = out.well; same_keys = out.same_keys; same_add = out.same_add }))

    All-has_key :
        (ps : List PollFd) (cs ds : Clients)
        → keys ds ≡ keys cs
        → All (λ p. has_key p.fd cs ≡ true) ps
        → All (λ p. has_key p.fd ds ≡ true) ps
    All-has_key [] cs ds e a = tt
    All-has_key (p ∷ ps) cs ds e a = (has_key-keys p.fd ds cs e ∙ a.0, All-has_key ps cs ds e a.1)

    pub visit_clients-Keeps :
        (ps : List PollFd) (rs : List Report) (w : Sweep h)
        → WellKeyed w.clients
        → All (λ p. has_key p.fd w.clients ≡ true) ps
        → If (Keeps w) (visit_clients h rig_model rig ps rs w)
    unfolding visit_clients
    visit_clients-Keeps [] rs w k a = keep w k
    visit_clients-Keeps (p ∷ ps) [] w k a = keep w k
    visit_clients-Keeps (p ∷ ps) (r ∷ rs) w k a =
        after-Keeps w (visit h rig_model rig none p.fd r w) (visit_clients h rig_model rig ps rs)
          (visit-Keeps p.fd r w k a.0)
          (λ v kv.
            visit_clients-Keeps ps rs v kv.well
              (All-has_key ps w.clients v.clients kv.same_keys a.1))
