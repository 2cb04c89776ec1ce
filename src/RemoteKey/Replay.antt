-- ===== src/RemoteKey/Replay.antt =====
-- src/remote_key_server.cpp, `replay_worker`: from the jitter buffer to the key and PTT lines, with
-- the safety watchdogs. A turn of its loop is a function of the time that `now_us` read.
pub mod Lines
pub mod Safety
pub mod Watchdog
pub mod Ptt
pub mod Device
use cwsd.Shared.{
  ℕ, Bool, true, false, not, ◌&&◌, ◌||◌, Option, none, some, List, [], ◌∷◌, ltb, leb, ◌==◌,
  if◌then◌else◌, add_u64, sub_u64, bit_and,
}
use cwsd.RemoteKey.Receive.{RemoteKeyConfig, us, ScheduledEdge, Link, drop_queue}

-- `KEY_DOWN`
abbrev pub key_down : ℕ
key_down = 0x01

unfoldable pub is_down : ScheduledEdge → Bool
is_down e = not (bit_and e.state key_down == 0)

-- The serial device (`fd` and the lines DTR and RTS that it drives), and the locals of
-- `replay_worker`.
pub record Keying : Type 0 where
  pub is_open : Bool
  pub key_line : Bool
  pub ptt_line : Bool
  pub key_is_down : Bool
  pub key_down_since_us : ℕ
  pub ptt_is_on : Bool
  pub ptt_release_at_us : ℕ
  pub last_iface_check : ℕ

-- `open_port`; `found` is whether `open` succeeds. It starts with both lines low.
unfoldable pub open_port : Bool → Keying → Keying
open_port found k =
    if found
    then record k { is_open = true; key_line = false; ptt_line = false }
    else record k { is_open = false }

-- `set_key` and `set_ptt`: nothing while no device is open.
unfoldable pub set_key : Bool → Keying → Keying
set_key down k = if k.is_open then record k { key_line = down } else k

unfoldable pub set_ptt : Bool → Keying → Keying
set_ptt on k = if k.is_open then record k { ptt_line = on } else k

unfoldable pub force_safe : Keying → Keying
unfolding set_key set_ptt
force_safe k = set_ptt false (set_key false k)

-- `force_safe()` with `key_is_down = ptt_is_on = false`
unfoldable pub make_safe : Keying → Keying
unfolding force_safe
make_safe k = record (force_safe k) { key_is_down = false; ptt_is_on = false }

-- `have_next`, and what `next_at` and `next_state` hold of the first edge that is left.
unfoldable pub have_next : List ScheduledEdge → Bool
have_next [] = false
have_next (e ∷ q) = true

-- Whether the next edge is a key-down.
unfoldable pub next_is_down : List ScheduledEdge → Bool
next_is_down [] = false
next_is_down (e ∷ q) = is_down e

unfoldable pub next_at : List ScheduledEdge → ℕ
next_at [] = 0
next_at (e ∷ q) = e.at_us

module _ (cfg : RemoteKeyConfig) (now : ℕ) where
  -- Looks for the device again, about every 100 ms.
  unfoldable pub reconnect : Bool → Keying → Keying
  unfolding open_port
  reconnect found k =
      if not k.is_open && ltb 100000 (sub_u64 now k.last_iface_check)
      then open_port found (record k { last_iface_check = now })
      else k

  -- A session reset forces a safe state; the request is taken back.
  unfoldable pub apply_reset : Bool → Keying → Keying
  unfolding make_safe
  apply_reset requested k = if requested then make_safe k else k

  -- The test for silence. It reads the time of the last packet twice, for the time since then and
  -- to see whether there was one at all; a packet may come in between.
  unfoldable pub is_silent : ℕ × ℕ → Bool
  is_silent last_rx_us =
      let since_rx = sub_u64 now last_rx_us.0 in
      not (last_rx_us.1 == 0) && ltb (us cfg.silence_ms) since_rx

  unfoldable pub apply_silence : Bool → Keying → Keying
  unfolding make_safe
  apply_silence silent k =
      if silent then (if k.key_is_down || k.ptt_is_on then make_safe k else k) else k

  -- The watchdog against a stuck key.
  unfoldable pub apply_watchdog : Keying → Keying
  unfolding set_key
  apply_watchdog k =
      if k.key_is_down && ltb (us cfg.max_key_down_ms) (sub_u64 now k.key_down_since_us)
      then record (set_key false k) { key_is_down = false }
      else k

  -- PTT is on at the latest when the key goes down.
  unfoldable pub raise_ptt : Bool → Keying → Keying
  unfolding set_ptt
  raise_ptt down k =
      if down && not k.ptt_is_on then record (set_ptt true k) { ptt_is_on = true } else k

  unfoldable pub move_key : Bool → Keying → Keying
  unfolding set_key
  move_key true k =
      if k.key_is_down
      then k
      else record (set_key true k) { key_is_down = true; key_down_since_us = now }
  move_key false k =
      if k.key_is_down
      then record (set_key false k) {
        key_is_down = false;
        ptt_release_at_us = add_u64 now (us cfg.ptt_tail_ms);
      }
      else k

  -- The body of the loop over the edges that are due.
  unfoldable pub apply_edge : ScheduledEdge → Keying → Keying
  unfolding raise_ptt move_key
  apply_edge e k = move_key (is_down e) (raise_ptt (is_down e) k)

  -- The loop: the edges that are left, and the keying after those that were due.
  unfoldable pub apply_due : List ScheduledEdge → Keying → List ScheduledEdge × Keying
  apply_due [] k = ([], k)
  apply_due (e ∷ q) k =
      let rest = apply_due q (apply_edge e k) in if leb e.at_us now then rest else (e ∷ q, k)

  -- PTT leads the next key-down.
  unfoldable pub ptt_lead : List ScheduledEdge → Keying → Keying
  unfolding next_is_down next_at set_ptt
  ptt_lead q k =
      if next_is_down q && not k.ptt_is_on
      then if leb (next_at q) (add_u64 now (us cfg.ptt_lead_ms))
        then record (set_ptt true k) { ptt_is_on = true }
        else k
      else k

  -- Whether a key-down is near enough to keep PTT on.
  unfoldable pub keydown_pending : List ScheduledEdge → Bool
  unfolding next_is_down next_at
  keydown_pending q = next_is_down q && ltb (next_at q) (add_u64 now (us cfg.ptt_tail_ms))

  -- PTT stays on for the tail after the last key-up.
  unfoldable pub ptt_tail : List ScheduledEdge → Keying → Keying
  unfolding keydown_pending set_ptt
  ptt_tail q k =
      if k.ptt_is_on && not k.key_is_down && leb k.ptt_release_at_us now
      then if keydown_pending q then k else record (set_ptt false k) { ptt_is_on = false }
      else k

  -- Until when the thread sleeps; at or before `now` it does not sleep.
  unfoldable pub wake : List ScheduledEdge → Keying → ℕ
  unfolding have_next next_at
  wake q k =
      let tick = add_u64 now 5000 in
      let edge = if have_next q && ltb (next_at q) tick then next_at q else tick in
      if k.ptt_is_on && not k.key_is_down && ltb k.ptt_release_at_us edge
      then k.ptt_release_at_us
      else edge

  -- The safety checks of a turn: the serial device, reset, silence, watchdog.
  unfoldable pub guarded : Bool → Bool → ℕ × ℕ → Keying → Keying
  guarded found requested last_rx_us k =
      apply_watchdog
        (apply_silence (is_silent last_rx_us) (apply_reset requested (reconnect found k)))

  -- A turn of `replay_worker` before it sleeps: the edges that are left, and the keying. What it
  -- reads of the link, which the other thread may change between any two of its reads, are
  -- arguments: whether a reset is requested, the two readings of when a packet came last, and the
  -- queue. `found` is
  -- whether a device can be opened.
  unfoldable pub turn :
      Bool → Bool → ℕ × ℕ → List ScheduledEdge → Keying → List ScheduledEdge × Keying
  unfolding guarded
  turn found requested last_rx_us queue k =
      let (q, k') = apply_due queue (guarded found requested last_rx_us k) in
      (q, ptt_tail q (ptt_lead q k'))

-- The link and the keying.
pub record Server : Type 0 where
  pub link : Link
  pub keying : Keying

module _ (cfg : RemoteKeyConfig) (now : ℕ) where
  -- The link after the safety checks of a turn.
  unfoldable pub guarded_link : Link → Link
  guarded_link l =
      let taken = record l { reset_requested = false } in
      if is_silent cfg now (l.last_rx_us, l.last_rx_us) then drop_queue taken else taken

  -- A turn that no datagram interrupts.
  unfoldable pub replay : Bool → Server → Server
  unfolding guarded_link
  replay found s =
      let link = guarded_link s.link in
      let (q, k) =
        turn cfg now found s.link.reset_requested (s.link.last_rx_us, s.link.last_rx_us) link.queue
          s.keying in
      record { link = record link { queue = q }; keying = k }

-- The locals of `replay_worker` before its loop, and the device as `open_port` leaves it.
unfoldable pub start_keying : Bool → Keying
unfolding open_port
start_keying found = open_port found (record {
  is_open = false;
  key_line = false;
  ptt_line = false;
  key_is_down = false;
  key_down_since_us = 0;
  ptt_is_on = false;
  ptt_release_at_us = 0;
  last_iface_check = 0;
})
