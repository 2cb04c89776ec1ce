-- ===== src/Rigctld/Work/InStep/Accept.antt =====
-- The loop over the descriptors with the listener, whose POLLIN accepts a client.
use cwsd.Shared.{
  ℕ, zero, suc, ◌≡◌, ◌≢◌, ◌⊎◌, refl, ap, ◌∙◌, subst, true, false, Option, none, some, List, [], ◌∷◌,
  All, inl, inr, if_both, if_either, if◌then◌else◌, arith,
}
use mathlib.Core.List.{map}
use cwsd.Strings.{ℤ, pos, negsuc}
use cwsd.Rigctld.Hamlib.{Hamlib, Answers, RigCall}
use cwsd.Rigctld.Clients.{Clients, keys, has_key, blank}
use cwsd.Rigctld.Clients.Keys.{WellKeyed, has_key-All, insert-WellKeyed, has_key-insert}
use cwsd.Rigctld.Poll.{Report, PollFd, poll_fd_of, update_poll_descriptors, poll_declares_error}
use cwsd.Rigctld.Sweep.{
  Sweep, accept_client, on_pollin, on_pollout, heard, visit, visit_clients, visit_all,
}
use cwsd.Rigctld.Sweep.Keeps.{Keeps, If, visit_clients-Keeps}
use cwsd.Rigctld.Work.{is_positive}

-- `poll` does not report of the listener what it was not asked for.
abbrev pub Quiet : List Report → Type 0
Quiet [] = Unit
Quiet (r ∷ rs) = r.revents.pollout ≡ false

-- The descriptors are keys of the map.
polled_present :
    (cs ds : Clients)
    → WellKeyed cs
    → All (λ k. has_key k ds ≡ true) (keys cs)
    → All (λ p. has_key p.fd ds ≡ true) (map poll_fd_of cs)
polled_present [] ds w a = tt
polled_present (c ∷ cs) ds w a = (ap (λ k. has_key k ds) w.0 ∙ a.0, polled_present cs ds w.1 a.1)

All-grown :
    (ps : List PollFd) (cs ds : Clients)
    → ((k : ℕ) → has_key k cs ≡ true → has_key k ds ≡ true)
    → All (λ p. has_key p.fd cs ≡ true) ps
    → All (λ p. has_key p.fd ds ≡ true) ps
All-grown [] cs ds g a = tt
All-grown (p ∷ ps) cs ds g a = (g p.fd a.0, All-grown ps cs ds g a.1)

module _ (h : Hamlib) (start : Clients) where
  -- A client that was added is announced by a positive descriptor.
  pub record Done (w : Sweep h) : Type 0 where
    pub well : WellKeyed w.clients
    pub counted : (keys w.clients ≡ keys start) ⊎ (is_positive w.fd_to_add ≡ true)

  record Grown (w : Sweep h) : Type 0 where
    pub done : Done w
    pub grown : (k : ℕ) → has_key k start ≡ true → has_key k w.clients ≡ true

  accept_client-Grown :
      (accepted : ℤ) (w : Sweep h)
      → accepted ≢ pos 0
      → w.clients ≡ start
      → WellKeyed w.clients
      → Grown (accept_client h accepted w)
  unfolding accept_client
  accept_client-Grown (pos zero) w n e k = absurd (n refl)
  accept_client-Grown (pos (suc fd)) w n e k = record {
    done = record {
      well = insert-WellKeyed (suc fd) (blank (suc fd)) w.clients refl k;
      counted = inr (ground arith);
    };
    grown = λ j p. has_key-insert j (suc fd) (blank (suc fd)) w.clients (ap (has_key j) e ∙ p);
  }
  accept_client-Grown (negsuc m) w n e k = record {
    done = record { well = k; counted = inl (ap keys e) };
    grown = λ j p. ap (has_key j) e ∙ p;
  }

  heard-Grown : (r : Report) (w : Sweep h) → Grown w → Grown (heard h r.messages w)
  heard-Grown r w g =
      let d = g.done in
      record { done = record { well = d.well; counted = d.counted }; grown = g.grown }

  -- The listener is never written to.
  quiet_step :
      (fd : ℕ) (r : Report) (o : Option (Sweep h))
      → r.revents.pollout ≡ false
      → If h Grown o
      → If h Grown (elim o [
        | none ↦ none
        | some v ↦
            some (heard h r.messages (if r.revents.pollout then on_pollout h fd r.wrote v else v))
      ])
  quiet_step fd r none q i = tt
  quiet_step fd r (some v) q i =
      if_either (λ u. Grown (heard h r.messages u)) r.revents.pollout (λ out. cc)
        (λ in_only. heard-Grown r v i)

  -- The clients that are visited behind the listener.
  visited : (v : Sweep h) (o : Option (Sweep h)) → Grown v → If h (Keeps h v) o → If h Done o
  visited v none g i = tt
  visited v (some u) g i = record {
    well = i.well;
    counted = elim g.done.counted [
      | inl same ↦ inl (i.same_keys ∙ same)
      | inr added ↦ inr (ap is_positive i.same_add ∙ added)
    ];
  }

  module _ (rig_model : ℕ) (rig : List (RigCall h) → Answers h) where
    visit-Grown :
        (accepted : ℤ) (fd : ℕ) (r : Report) (w : Sweep h)
        → accepted ≢ pos 0
        → r.revents.pollout ≡ false
        → w.clients ≡ start
        → WellKeyed w.clients
        → If h Grown (visit h rig_model rig (some accepted) fd r w)
    unfolding visit on_pollin
    visit-Grown accepted fd r w n q e k =
        let base : Grown w = record {
          done = record { well = k; counted = inl (ap keys e) };
          grown = λ j p. ap (has_key j) e ∙ p;
        } in
        if_both (If h Grown) (poll_declares_error r.revents)
          (record { done = record { well = k; counted = inl (ap keys e) }; grown = base.grown })
          (quiet_step fd r (if r.revents.pollin then some (accept_client h accepted w) else some w)
            q (if_both (If h Grown) r.revents.pollin (accept_client-Grown accepted w n e k) base))

    then_clients :
        (rs : List Report) (o : Option (Sweep h))
        → WellKeyed start
        → If h Grown o
        → If h Done (elim o [
          | none ↦ none
          | some v ↦ visit_clients h rig_model rig (map poll_fd_of start) rs v
        ])
    then_clients rs none k i = tt
    then_clients rs (some v) k i =
        visited v (visit_clients h rig_model rig (map poll_fd_of start) rs v) i (
          visit_clients-Keeps h rig_model rig (map poll_fd_of start) rs v i.done.well (
            All-grown (map poll_fd_of start) start v.clients i.grown
              (polled_present start start k (has_key-All start (keys start) refl))))

    pub visit_all-Done :
        (accepted : ℤ) (server_fd : ℕ) (rs : List Report) (w : Sweep h)
        → accepted ≢ pos 0
        → Quiet rs
        → w.clients ≡ start
        → WellKeyed w.clients
        → If h Done
            (visit_all h rig_model rig accepted (update_poll_descriptors server_fd start) rs w)
    unfolding visit_all
    visit_all-Done accepted server_fd [] w n q e k = record { well = k; counted = inl (ap keys e) }
    visit_all-Done accepted server_fd (r ∷ rs) w n q e k =
        then_clients rs (visit h rig_model rig (some accepted) server_fd r w) (subst WellKeyed e k)
          (visit-Grown accepted server_fd r w n q e k)
