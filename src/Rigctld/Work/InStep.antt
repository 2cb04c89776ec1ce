-- ===== src/Rigctld/Work/InStep.antt =====
-- The descriptors of `poll` are in step with the clients.
pub mod Accept
pub mod Flags
use cwsd.Shared.{
  ℕ, zero, suc, ◌≡◌, ◌≢◌, ◌⊎◌, refl, sym, ap, ap₂, ◌∙◌, subst, Bool, true, false, ◌||◌, Option,
  none, some, List, [], ◌∷◌, All, inl, inr, if_both, if_either, Option-cases, Bool-cases,
  if◌then◌else◌, not,
}
use mathlib.Core.List.{map}
use cwsd.Strings.{ℤ, pos, negsuc}
use cwsd.Rigctld.Hamlib.{Hamlib, Answers, RigCall}
use cwsd.Rigctld.Clients.{Clients, keys, has_key, erase}
use cwsd.Rigctld.Clients.Keys.{WellKeyed, fds, fds-keys, has_key-All, erase-WellKeyed}
use cwsd.Rigctld.Poll.{
  Report, PollFd, Opening, open_rig, has_output, poll_fd_of, update_poll_descriptors, flag_clients,
  update_poll_flags,
}
use cwsd.Rigctld.Sweep.{Sweep, visit_all}
use cwsd.Rigctld.Sweep.Keeps.{If}
use cwsd.Rigctld.Work.InStep.Accept.{Quiet, Done, visit_all-Done}
use cwsd.Rigctld.Work.{
  Happening, RigctldServer, Turn, turned, terminated, undefined_line, out_of_range, erase_all,
  reconnect, start_sweep, is_positive, finish, serve, work_turn, work, fresh_server,
}
use cwsd.Rigctld.Work.InStep.Flags.{update_poll_flags_lem, erase_all-WellKeyed}

module _ (h : Hamlib) (server_fd : ℕ) where
  -- Each client is under its descriptor, and `poll` watches the listener and the clients in their
  -- order, each for output exactly if there is some.
  pub record InStep (s : RigctldServer h) : Type 0 where
    pub well : WellKeyed s.clients
    pub watched : s.pfds ≡ update_poll_descriptors server_fd s.clients

  -- The turn does not write behind the descriptors, and what it leaves is in step.
  abbrev pub Orderly : Turn h → Type 0
  Orderly (turned s) = InStep s
  Orderly terminated = Unit
  Orderly undefined_line = Unit
  Orderly out_of_range = ⊥

  -- The flags are brought up to date, whether the descriptors are built again or not.
  flagged :
      (rs : List ℕ) (b : Bool) (s : RigctldServer h) (cs : Clients)
      → InStep s
      → WellKeyed cs
      → (keys cs ≡ keys s.clients) ⊎ (b ≡ true)
      → update_poll_flags (erase_all rs cs) (
          if b || elim rs [ [] ↦ false | r ∷ rs ↦ true ]
          then update_poll_descriptors server_fd (erase_all rs cs)
          else s.pfds)
        ≡ some (update_poll_descriptors server_fd (erase_all rs cs))
  unfolding erase_all
  flagged rs true s cs i k c =
      update_poll_flags_lem server_fd (erase_all rs cs) (erase_all rs cs) refl
  flagged (r ∷ rs) false s cs i k c =
      update_poll_flags_lem server_fd (erase_all (r ∷ rs) cs) (erase_all (r ∷ rs) cs) refl
  flagged [] false s cs i k (inl e) =
      ap (update_poll_flags cs) i.watched
      ∙ update_poll_flags_lem server_fd cs s.clients
          (fds-keys cs k ∙ e ∙ sym (fds-keys s.clients i.well))
  flagged [] false s cs i k (inr e) = cc

  module _ (rig_model serial_speed : ℕ) (rig : List (RigCall h) → Answers h) where
    finish-Orderly :
        (s : RigctldServer h) (w : Sweep h)
        → InStep s
        → Done h s.clients w
        → Orderly (finish h server_fd rig_model serial_speed rig s w)
    unfolding finish
    finish-Orderly s w i d =
        rw
          (flagged w.fds_to_remove (is_positive w.fd_to_add) s w.clients i d.well d.counted, finish)
          (record { well = erase_all-WellKeyed w.fds_to_remove w.clients d.well; watched = refl })

    then_finish :
        (s : RigctldServer h) (o : Option (Sweep h))
        → InStep s
        → If h (Done h s.clients) o
        → Orderly (elim o [
          | none ↦ undefined_line
          | some w ↦ finish h server_fd rig_model serial_speed rig s w
        ])
    then_finish s none i d = tt
    then_finish s (some w) i d = finish-Orderly s w i d

    serve_reports :
        (opening : Opening) (accepted : ℤ) (rs : List Report) (s : RigctldServer h)
        → accepted ≢ pos 0
        → Quiet rs
        → InStep s
        → Orderly (
            serve h server_fd rig_model serial_speed rig
              (record { opening = opening; accepted = accepted; reports = rs })
              s)
    unfolding serve
    serve_reports opening accepted [] s n q i = i
    serve_reports opening accepted (r ∷ rs) s n q i =
        then_finish s (visit_all h rig_model rig accepted s.pfds (r ∷ rs) (start_sweep h s)) i (
          subst
            (λ ps.
              If h (Done h s.clients)
                (visit_all h rig_model rig accepted ps (r ∷ rs) (start_sweep h s)))
            (sym i.watched)
            (visit_all-Done h s.clients rig_model rig accepted server_fd (r ∷ rs) (start_sweep h s)
              n q refl i.well))

    -- `accept` does not give the descriptor 0, and `poll` reports only what it was asked for.
    abbrev pub Usual : Happening → Type 0
    Usual e = (e.accepted ≢ pos 0) × Quiet e.reports

    InStepIf : Option (RigctldServer h) → Type 0
    InStepIf none = Unit
    InStepIf (some s) = InStep s

    reconnected :
        (s : RigctldServer h) (o : Option Bool)
        → InStep s
        → InStepIf (elim o [
          | none ↦ none
          | some opened ↦ some (record s { rig_disconnected = not opened; rig_present = opened })
        ])
    unfolding InStepIf
    reconnected s none i = tt
    reconnected s (some b) i = record { well = i.well; watched = i.watched }

    reconnect-InStepIf :
        (o : Opening) (s : RigctldServer h)
        → InStep s
        → InStepIf (reconnect h server_fd rig_model serial_speed rig o s)
    unfolding reconnect InStepIf
    reconnect-InStepIf o s i = if_both InStepIf (not s.rig_disconnected) i (
        reconnected
          (if s.rig_present
            then record s {
              clients = [];
              pfds = update_poll_descriptors server_fd [];
              rig_present = false;
            }
            else s)
          (open_rig serial_speed o)
          (if_both InStep s.rig_present (record { well = tt; watched = refl }) i))

    then_serve :
        (e : Happening) (o : Option (RigctldServer h))
        → Usual e
        → InStepIf o
        → Orderly (elim o [
          | none ↦ terminated
          | some s ↦ serve h server_fd rig_model serial_speed rig e s
        ])
    unfolding InStepIf
    then_serve e none u i = tt
    then_serve e (some s) u i = serve_reports e.opening e.accepted e.reports s u.0 u.1 i

    work_turn-Orderly :
        (e : Happening) (s : RigctldServer h)
        → Usual e
        → InStep s
        → Orderly (work_turn h server_fd rig_model serial_speed rig e s)
    unfolding work_turn
    work_turn-Orderly e s u i =
        then_serve e (reconnect h server_fd rig_model serial_speed rig e.opening s) u
          (reconnect-InStepIf e.opening s i)

    then_work :
        (t : Turn h) (f : RigctldServer h → Turn h)
        → Orderly t
        → ((s : RigctldServer h) → InStep s → Orderly (f s))
        → Orderly (elim t [
          | turned s ↦ f s
          | terminated ↦ terminated
          | undefined_line ↦ undefined_line
          | out_of_range ↦ out_of_range
        ])
    then_work (turned s) f j later = later s j
    then_work terminated f j later = tt
    then_work undefined_line f j later = tt
    then_work out_of_range f j later = j

    work-Orderly_from :
        (es : List Happening) (s : RigctldServer h)
        → All Usual es
        → InStep s
        → Orderly (work h server_fd rig_model serial_speed rig es s)
    unfolding work
    work-Orderly_from [] s us i = i
    work-Orderly_from (e ∷ es) s us i =
        then_work (work_turn h server_fd rig_model serial_speed rig e s)
          (work h server_fd rig_model serial_speed rig es) (work_turn-Orderly e s us.0 i)
          (λ t j. work-Orderly_from es t us.1 j)

    -- Whatever happens, the worker never writes behind its array of descriptors, and after each turn
    -- `poll` watches the listener and all clients in the order of the map, each client for output
    -- exactly if some waits for it, and each client is under its own descriptor; if `accept` never
    -- gives the descriptor 0 and `poll` reports of the listener only what it was asked for.
    pub work-Orderly :
        (es : List Happening)
        → All Usual es
        → Orderly (
            work h server_fd rig_model serial_speed rig es
              (fresh_server h server_fd rig_model serial_speed rig))
    work-Orderly es us =
        work-Orderly_from es (fresh_server h server_fd rig_model serial_speed rig) us
          (record { well = tt; watched = refl })
