-- ===== src/Rigctld/Sweep.antt =====
-- src/rigctld_server.cpp, `work`: the loop over the descriptors that `poll` reports.
pub mod Keeps
use cwsd.Shared.{ℕ, Bool, true, false, Option, none, some, List, [], ◌∷◌, ◌++◌, if◌then◌else◌}
use cwsd.Strings.{ℤ, pos, negsuc}
use cwsd.Rigctld.Hamlib.{Hamlib, Answers, RigCall}
use cwsd.Rigctld.Client.{
  Received, Written, Serving, Progress, kept, closed, broken, out_of_fuel, read_from_client,
  write_from_client,
}
use cwsd.Rigctld.Clients.{Clients, blank, value_at, insert, subscript, assign}
use cwsd.Rigctld.Poll.{Report, PollFd, poll_declares_error, after_messages}

module _ (h : Hamlib) where
  -- The variables of the loop over the descriptors.
  pub record Sweep : Type 0 where
    pub clients : Clients
    pub calls : List (RigCall h)
    pub rig_disconnected : Bool
    pub fd_to_add : ℤ
    pub fds_to_remove : List ℕ

  abbrev pub removing : ℕ → Sweep → Sweep
  removing fd w = record w { fds_to_remove = w.fds_to_remove ++ fd ∷ [] }

  -- `accept_client` of what `accept` gives.
  unfoldable pub accept_client : ℤ → Sweep → Sweep
  unfolding insert
  accept_client (pos fd) w = record w {
    clients = insert fd (blank fd) w.clients;
    fd_to_add = pos fd;
  }
  accept_client (negsuc n) w = record w { fd_to_add = negsuc n }

  abbrev pub serving_at : ℕ → Sweep → Serving h
  unfolding subscript
  serving_at fd w = record { client = value_at fd (subscript fd w.clients); calls = w.calls }

  abbrev pub store : ℕ → Serving h → Sweep → Sweep
  unfolding subscript
  store fd s w = record w { clients = assign fd s.client (subscript fd w.clients); calls = s.calls }

  -- What becomes of the loop when a client has been read; `none` is undefined.
  unfoldable pub after_read : ℕ → Sweep → Progress h → Option Sweep
  unfolding subscript
  after_read fd w (kept s) = some (store fd s w)
  after_read fd w (closed s) = some (removing fd (store fd s w))
  after_read fd w broken = none
  after_read fd w out_of_fuel = none

  -- The branch for POLLOUT.
  unfoldable pub on_pollout : ℕ → Written → Sweep → Sweep
  unfolding subscript write_from_client
  on_pollout fd wrote w = elim (write_from_client wrote (value_at fd (subscript fd w.clients))) [
    | none ↦ removing fd (record w { clients = subscript fd w.clients })
    | some c ↦ record w { clients = assign fd c (subscript fd w.clients) }
  ]

  abbrev pub heard : List (List ℕ × Bool) → Sweep → Sweep
  heard ms w = record w { rig_disconnected = after_messages ms w.rig_disconnected }

  module _ (rig_model : ℕ) (rig : List (RigCall h) → Answers h) where
    -- The branch for POLLIN, at the first index with what `accept` gives.
    unfoldable pub on_pollin : Option ℤ → ℕ → Received → Written → Sweep → Option Sweep
    unfolding accept_client after_read read_from_client subscript
    on_pollin (some accepted) fd received flush w = some (accept_client accepted w)
    on_pollin none fd received flush w =
        after_read fd w
          (read_from_client h rig_model rig flush w.rig_disconnected received (serving_at fd w))

    -- The body of the loop over the descriptors.
    unfoldable pub visit : Option ℤ → ℕ → Report → Sweep → Option Sweep
    unfolding on_pollin on_pollout
    visit accepted fd r w =
        if poll_declares_error r.revents
        then some (removing fd w)
        else let read =
            if r.revents.pollin then on_pollin accepted fd r.received r.flush w else some w in
          elim read [
            | none ↦ none
            | some w ↦
                some (heard r.messages (if r.revents.pollout then on_pollout fd r.wrote w else w))
          ]

    -- The loop from the second index on. A descriptor that has no report has no events.
    unfoldable pub visit_clients : List PollFd → List Report → Sweep → Option Sweep
    unfolding visit
    visit_clients [] rs w = some w
    visit_clients (p ∷ ps) [] w = some w
    visit_clients (p ∷ ps) (r ∷ rs) w = elim (visit none p.fd r w) [
      | none ↦ none
      | some w ↦ visit_clients ps rs w
    ]

    unfoldable pub visit_all : ℤ → List PollFd → List Report → Sweep → Option Sweep
    unfolding visit visit_clients
    visit_all accepted [] rs w = some w
    visit_all accepted (p ∷ ps) [] w = some w
    visit_all accepted (p ∷ ps) (r ∷ rs) w = elim (visit (some accepted) p.fd r w) [
      | none ↦ none
      | some w ↦ visit_clients ps rs w
    ]
