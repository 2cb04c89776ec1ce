-- ===== src/Rigctld/Work.antt =====
-- src/rigctld_server.cpp, `work`: a turn of the loop of the worker, as a function of what the system
-- and the rig give in it.
pub mod InStep
use cwsd.Shared.{
  ℕ, Bool, true, false, not, ◌||◌, Option, none, some, List, [], ◌∷◌, ltb, if◌then◌else◌,
}
use cwsd.Strings.{ℤ, pos, negsuc}
use cwsd.Rigctld.Hamlib.{Hamlib, Answers, RigCall}
use cwsd.Rigctld.Clients.{Clients, erase}
use cwsd.Rigctld.Poll.{
  Report, PollFd, Opening, open_rig, update_poll_descriptors, update_poll_flags,
}
use cwsd.Rigctld.Sweep.{Sweep, visit_all}

unfoldable pub erase_all : List ℕ → Clients → Clients
unfolding erase
erase_all [] cs = cs
erase_all (r ∷ rs) cs = erase_all rs (erase r cs)

-- What the system and hamlib give in one turn of the loop: `open_rig`'s calls, `accept`, and the
-- reports of `poll`, none where it returns no events.
pub record Happening : Type 0 where
  pub opening : Opening
  pub accepted : ℤ
  pub reports : List Report

abbrev pub is_positive : ℤ → Bool
is_positive (pos n) = ltb 0 n
is_positive (negsuc n) = false

module _ (h : Hamlib) where
  pub record RigctldServer : Type 0 where
    pub clients : Clients
    pub pfds : List PollFd
    pub rig_disconnected : Bool
    pub rig_present : Bool
    pub calls : List (RigCall h)

  -- How a turn ends; the worker ends by an exception of `open_rig`, and two ends are not defined.
  pub data Turn : Type 0 where
    turned : RigctldServer → Turn
    terminated undefined_line out_of_range : Turn

  abbrev pub start_sweep : RigctldServer → Sweep h
  start_sweep s = record {
    clients = s.clients;
    calls = s.calls;
    rig_disconnected = s.rig_disconnected;
    fd_to_add = negsuc 0;
    fds_to_remove = [];
  }

  module _ (server_fd rig_model serial_speed : ℕ) (rig : List (RigCall h) → Answers h) where
    -- The part of `work` before `poll`, for a rig that is disconnected; `none` is an exception.
    unfoldable pub reconnect : Opening → RigctldServer → Option (RigctldServer)
    unfolding open_rig
    reconnect o s =
        let cleared =
          if s.rig_present
          then record s {
            clients = [];
            pfds = update_poll_descriptors server_fd [];
            rig_present = false;
          }
          else s in
        if not s.rig_disconnected then some s else elim (open_rig serial_speed o) [
          | none ↦ none
          | some opened ↦
              some (record cleared { rig_disconnected = not opened; rig_present = opened })
        ]

    -- The part of `work` behind the loop over the descriptors.
    unfoldable pub finish : RigctldServer → Sweep h → Turn
    unfolding erase_all update_poll_flags
    finish s w =
        let clients = erase_all w.fds_to_remove w.clients in
        let changed =
          is_positive w.fd_to_add || elim w.fds_to_remove [ [] ↦ false | r ∷ rs ↦ true ] in
        let pfds = if changed then update_poll_descriptors server_fd clients else s.pfds in
        elim (update_poll_flags clients pfds) [
          | none ↦ out_of_range
          | some flagged ↦ turned (record {
            clients = clients;
            pfds = flagged;
            rig_disconnected = w.rig_disconnected;
            rig_present = s.rig_present;
            calls = w.calls;
          })
        ]

    -- The part of `work` from `poll` on.
    unfoldable pub serve : Happening → RigctldServer → Turn
    unfolding visit_all finish
    serve e s = elim e.reports [
      | [] ↦ turned s
      | r ∷ rs ↦ elim (visit_all h rig_model rig e.accepted s.pfds (r ∷ rs) (start_sweep s)) [
        | none ↦ undefined_line
        | some w ↦ finish s w
      ]
    ]

    -- A turn of the loop in `work`.
    unfoldable pub work_turn : Happening → RigctldServer → Turn
    unfolding reconnect serve
    work_turn e s = elim (reconnect e.opening s) [ none ↦ terminated | some s ↦ serve e s ]

    -- `work` for as long as it runs; it starts with no client.
    unfoldable pub work : List Happening → RigctldServer → Turn
    unfolding work_turn
    work [] s = turned s
    work (e ∷ es) s = elim (work_turn e s) [
      | turned s ↦ work es s
      | terminated ↦ terminated
      | undefined_line ↦ undefined_line
      | out_of_range ↦ out_of_range
    ]

    abbrev pub fresh_server : RigctldServer
    fresh_server = record {
      clients = [];
      pfds = update_poll_descriptors server_fd [];
      rig_disconnected = true;
      rig_present = false;
      calls = [];
    }
