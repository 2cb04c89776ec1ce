-- ===== src/Rigctld/Poll.antt =====
-- src/rigctld_server.cpp: what `poll` watches and reports, and the state of the rig's connection.
use cwsd.Shared.{
  ℕ, Bool, true, false, not, ◌&&◌, ◌||◌, Option, none, some, List, [], ◌∷◌, ◌==◌, codes,
  if◌then◌else◌,
}
use mathlib.Core.List.{map}
use cwsd.StringUtil.{string_contains}
use cwsd.Rigctld.Client.{RigctldClient, Received, Written}
use cwsd.Rigctld.Clients.{Clients}

-- `revents`
pub record Revents : Type 0 where
  pub pollin : Bool
  pub pollout : Bool
  pub pollerr : Bool
  pub pollhup : Bool
  pub pollnval : Bool

-- What `poll` reports of a descriptor, what `recv` and `write` on it give if they are called
-- (`flush` is the `write` of a client that quits), and the debug messages of hamlib meanwhile, each with whether the device is present then.
pub record Report : Type 0 where
  pub revents : Revents
  pub received : Received
  pub wrote : Written
  pub flush : Written
  pub messages : List (List ℕ × Bool)

-- `pollfd`, with `events` as its two flags that are used.
pub record PollFd : Type 0 where
  pub fd : ℕ
  pub pollin : Bool
  pub pollout : Bool

-- What the calls in `open_rig` give: whether `rig_init` finds the model, and which of the others
-- return `RIG_OK`.
pub record Opening : Type 0 where
  pub inited : Bool
  pub speed_set : Bool
  pub rts_set : Bool
  pub dtr_set : Bool
  pub opened : Bool

-- `open_rig`; `none` is an exception, which ends the program.
unfoldable pub open_rig : ℕ → Opening → Option Bool
open_rig serial_speed o =
    if not o.inited
    then none
    else if not (serial_speed == 0) && not o.speed_set
    then none
    else if not o.rts_set
    then none
    else if not o.dtr_set
    then none
    else some o.opened

abbrev pub has_output : RigctldClient → Bool
has_output c = elim c.write_buffer [ [] ↦ false | b ∷ bs ↦ true ]

abbrev pub poll_fd_of : ℕ × RigctldClient → PollFd
poll_fd_of e = record { fd = e.1.fd; pollin = true; pollout = has_output e.1 }

-- `update_poll_descriptors`: the listener first.
abbrev pub update_poll_descriptors : ℕ → Clients → List PollFd
update_poll_descriptors server_fd cs =
    record { fd = server_fd; pollin = true; pollout = false } ∷ map poll_fd_of cs

-- The loop of `update_poll_flags` from one index on; `none` is a write behind the descriptors.
abbrev pub flag_clients : Clients → List PollFd → Option (List PollFd)
flag_clients [] ps = some ps
flag_clients (c ∷ cs) [] = none
flag_clients (c ∷ cs) (p ∷ ps) = elim (flag_clients cs ps) [
  | none ↦ none
  | some flagged ↦ some (record p { pollout = has_output c.1 } ∷ flagged)
]

-- `update_poll_flags`
unfoldable pub update_poll_flags : Clients → List PollFd → Option (List PollFd)
update_poll_flags cs [] = elim cs [ [] ↦ some [] | c ∷ rest ↦ none ]
update_poll_flags cs (p ∷ ps) = elim (flag_clients cs ps) [
  | none ↦ none
  | some flagged ↦ some (p ∷ flagged)
]

abbrev pub poll_declares_error : Revents → Bool
poll_declares_error events = events.pollerr || events.pollhup || events.pollnval

-- `on_rig_disconnect`: `rig_disconnected` behind it. A device that is present is a rig that sleeps.
unfoldable pub on_rig_disconnect : Bool → Bool → Bool
on_rig_disconnect device_present rig_disconnected =
    if device_present then rig_disconnected else true

-- `debug_callback`
unfoldable pub debug_callback : List ℕ × Bool → Bool → Bool
unfolding on_rig_disconnect string_contains
debug_callback (message, device_present) rig_disconnected =
    if string_contains message (codes "read failed")
    then on_rig_disconnect device_present rig_disconnected
    else rig_disconnected

unfoldable pub after_messages : List (List ℕ × Bool) → Bool → Bool
unfolding debug_callback
after_messages [] rig_disconnected = rig_disconnected
after_messages (m ∷ ms) rig_disconnected = after_messages ms (debug_callback m rig_disconnected)
