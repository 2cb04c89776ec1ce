-- ===== src/CwDaemon/KeyInterface.antt =====
-- src/cwdaemon_server.cpp, `key_interface` and the constructor of the server: the serial line that
-- the keyer moves. What `open` and `isatty` return are arguments, and so is how `open` leaves the
-- line. RTS is not modelled: `ptt` is set and nothing reads it.
pub mod Follows
use cwsd.Shared.{
  ℕ, ◌≡◌, ◌≢◌, refl, ◌∙◌, Bool, true, false, ◌&&◌, ◌==◌, Option, none, some, List, [], ◌∷◌,
  if◌then◌else◌, arith,
}
use cwsd.Keyer.Floats.{Floats}
use cwsd.Keyer.Machine.{
  Keyer, Answers, Call, key_goes_down, key_goes_up, send_element, same_state, call,
}
use cwsd.Keyer.States.{enter, idle_enter}
use cwsd.Keyer.States.Keeps.{key_of}
use cwsd.Keyer.States.KeyLine.{Action, KeyFollows, run, run-KeyFollows}
use cwsd.Keyer.Winkeyer.{parameter_count, is_winkeyer_command, is_winkeyer_buffered_command}
use cwsd.Keyer.Commands.{feed, init, winkeyer_data, take_argument, take_command, execute}

-- `fd_is_live`: the descriptor is that of a terminal that is there, so that `ioctl` moves its DTR
-- line.
pub record KeyInterface : Type 0 where
  pub fd_is_live : Bool
  pub fd_was_valid : Bool
  pub dtr : Bool

-- The constructor; no device is open.
abbrev pub new_interface : KeyInterface
new_interface = record { fd_is_live = false; fd_was_valid = false; dtr = false }

-- `ioctl` with `TIOCMBIS` or `TIOCMBIC` and DTR.
unfoldable pub set_dtr : Bool → KeyInterface → KeyInterface
set_dtr on i = if i.fd_is_live then record i { dtr = on } else i

-- `open_port`. `open` fails, or it succeeds and leaves the line on or off; DTR is cleared then.
unfoldable pub open_port : Option Bool → KeyInterface → Bool × KeyInterface
unfolding set_dtr
open_port (some raised) i = (true, set_dtr false (record i { fd_is_live = true; dtr = raised }))
open_port none i = (false, record i { fd_is_live = false })

unfoldable pub on_key_down : KeyInterface → KeyInterface
unfolding set_dtr
on_key_down i = set_dtr true i

unfoldable pub on_key_up : KeyInterface → KeyInterface
unfolding set_dtr
on_key_up i = set_dtr false i

-- `update`: `isatty` tells whether the terminal is there; if not, the port is opened again.
unfoldable pub update : Option Bool → KeyInterface → KeyInterface
unfolding open_port
update opens i =
    let fd_valid = i.fd_is_live in
    let i' = if fd_valid then i else (open_port opens i).1 in record i' { fd_was_valid = fd_valid }

-- What the interface makes of the keyer's calls: it overrides those that move the key.
unfoldable pub hear : Call → KeyInterface → KeyInterface
unfolding on_key_down on_key_up
hear key_goes_down i = on_key_down i
hear key_goes_up i = on_key_up i
hear c i = i

-- All the calls, the last one first.
unfoldable pub hear_all : List Call → KeyInterface → KeyInterface
unfolding hear
hear_all [] i = i
hear_all (c ∷ cs) i = hear c (hear_all cs i)

-- The server's constructor: the keyer is set up, and given its speed.
unfoldable pub start : {F : Floats} → ℕ → Answers → Keyer F → Keyer F
start wpm a k = feed (0x02 ∷ wpm ∷ []) (init a k)

-- What happens to the interface: a call of the keyer, one of `update`, and the loss of the device,
-- which the code does not see but by `isatty`.
pub data Event : Type 0 where
  hears : Call → Event
  updates : Option Bool → Event
  vanishes : Event

-- The interface after the events, the last one first.
unfoldable pub after : List Event → KeyInterface → KeyInterface
unfolding hear update
after [] i = i
after (hears c ∷ es) i = hear c (after es i)
after (updates opens ∷ es) i = update opens (after es i)
after (vanishes ∷ es) i = record (after es i) { fd_is_live = false }

-- The line of a device that is there.
abbrev pub line_on : KeyInterface → Bool
line_on i = i.fd_is_live && i.dtr

-- Whether the key was put down last, among the keyer's calls.
unfoldable pub key_called : List Event → Bool
key_called [] = false
key_called (hears key_goes_down ∷ es) = true
key_called (hears key_goes_up ∷ es) = false
key_called (e ∷ es) = key_called es

-- The line is on only while the key was put down last.
abbrev IsOnlyKeyed : List Event → KeyInterface → Type 0
IsOnlyKeyed es i = line_on i ≡ true → key_called es ≡ true

hear-IsOnlyKeyed :
    (c : Call) (es : List Event) (i : KeyInterface)
    → IsOnlyKeyed es i
    → IsOnlyKeyed (hears c ∷ es) (hear c i)
unfolding hear on_key_down on_key_up key_called
hear-IsOnlyKeyed c es i v on = ground arith

update-IsOnlyKeyed :
    (opens : Option Bool) (es : List Event) (i : KeyInterface)
    → IsOnlyKeyed es i
    → IsOnlyKeyed (updates opens ∷ es) (update opens i)
unfolding update open_port key_called
update-IsOnlyKeyed none es i v on = ground arith
update-IsOnlyKeyed (some raised) es i v on = ground arith

after-IsOnlyKeyed : (es : List Event) → IsOnlyKeyed es (after es new_interface)
unfolding after key_called
after-IsOnlyKeyed [] on = ground arith
after-IsOnlyKeyed (hears c ∷ es) on =
    hear-IsOnlyKeyed c es (after es new_interface) (after-IsOnlyKeyed es) on
after-IsOnlyKeyed (updates opens ∷ es) on =
    update-IsOnlyKeyed opens es (after es new_interface) (after-IsOnlyKeyed es) on
after-IsOnlyKeyed (vanishes ∷ es) on = ground arith

-- Whatever the keyer calls, however often the device is lost and opened again or not, and whether
-- or not opening it raises its line, the line of a device that is there is on only while the last
-- of the keyer's calls that move the key put it down.
pub after_keyed : (es : List Event) → line_on (after es new_interface) ≡ true → key_called es ≡ true
after_keyed es on = after-IsOnlyKeyed es on
