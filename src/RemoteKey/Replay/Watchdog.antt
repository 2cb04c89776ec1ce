-- ===== src/RemoteKey/Replay/Watchdog.antt =====
-- How long `replay_worker` leaves the key line on: the watchdog against the time at which the line
-- was last seen to go on.
use cwsd.Shared.{
  ℕ, ◌+◌, ◌^◌, ◌≤◌, ◌<◌, ◌≡◌, Bool, true, not, ◌&&◌, List, [], ◌∷◌, Bool-cases, inl, inr,
  if◌then◌else◌, leb, sub_u64, subst, arith,
}
use cwsd.RemoteKey.Receive.{RemoteKeyConfig, us, ScheduledEdge}
use cwsd.RemoteKey.Replay.{
  Keying, start_keying, reconnect, apply_reset, apply_silence, apply_watchdog, apply_edge,
  apply_due, guarded, ptt_lead, ptt_tail, turn,
}
use cwsd.RemoteKey.Replay.Lines.{IsSafe, start_keying_lem, Reading, turns}
use cwsd.RemoteKey.Replay.Safety.{turn_watchdog}

-- When the key line went on last: now, if it is on and was not on before.
unfoldable pub seen : ℕ → Keying → Keying → ℕ → ℕ
seen now before after on_since = if after.key_line && not before.key_line then now else on_since

module _ (cfg : RemoteKeyConfig) (now : ℕ) where
  -- The same after each of the edges that are due.
  unfoldable pub seen_due : List ScheduledEdge → Keying → ℕ → ℕ
  seen_due [] k on_since = on_since
  seen_due (e ∷ q) k on_since =
      let k' = apply_edge cfg now e k in
      let rest = seen_due q k' (seen now k k' on_since) in
      if leb e.at_us now then rest else on_since

-- The same after a turn, looking at the line before the edges, after each, and at the end.
unfoldable pub seen_turn : RemoteKeyConfig → Reading → Keying → ℕ → ℕ
unfolding seen_due
seen_turn cfg r k on_since =
    let k' = guarded cfg r.now r.found r.requested r.last_rx_us k in
    let k'' = (apply_due cfg r.now r.queue k').1 in
    let end = (turn cfg r.now r.found r.requested r.last_rx_us r.queue k).1 in
    seen r.now k'' end (seen_due cfg r.now r.queue k' (seen r.now k k' on_since))

-- The same after some turns.
unfoldable pub seen_turns : RemoteKeyConfig → Keying → ℕ → List Reading → ℕ
seen_turns cfg k on_since [] = on_since
seen_turns cfg k on_since (r ∷ rs) =
    seen_turns cfg (turn cfg r.now r.found r.requested r.last_rx_us r.queue k).1
      (seen_turn cfg r k on_since) rs

-- While the line is on, the thread counts from when it went on.
record Counts (k : Keying) (on_since : ℕ) : Type 0 where
  safe : IsSafe k
  since : k.key_line ≡ true → k.key_down_since_us ≡ on_since

module _ (cfg : RemoteKeyConfig) (now : ℕ) where
  guarded-Counts :
      (found requested : Bool) (last_rx_us : ℕ × ℕ) (k : Keying) (s : ℕ)
      → Counts k s
      → let k' = guarded cfg now found requested last_rx_us k in Counts k' (seen now k k' s)
  unfolding seen guarded reconnect apply_reset apply_silence apply_watchdog
  guarded-Counts found requested last_rx_us k s c = ground (arith, c.safe, c.since)

  edge-Counts :
      (e : ScheduledEdge) (k : Keying) (s : ℕ)
      → Counts k s
      → let k' = apply_edge cfg now e k in Counts k' (seen now k k' s)
  unfolding seen apply_edge
  edge-Counts e k s c = ground (arith, c.safe, c.since)

  due-Counts :
      (q : List ScheduledEdge) (k : Keying) (s : ℕ)
      → Counts k s
      → Counts (apply_due cfg now q k).1 (seen_due cfg now q k s)
  unfolding apply_due seen_due
  due-Counts [] k s c = c
  due-Counts (e ∷ q) k s c = elim (Bool-cases (leb e.at_us now)) [
    | inl due ↦ rw due (due-Counts q _ _ (edge-Counts e k s c))
    | inr later ↦ rw later c
  ]

  ptt-Counts :
      (q : List ScheduledEdge) (k : Keying) (s : ℕ)
      → Counts k s
      → let k' = ptt_tail cfg now q (ptt_lead cfg now q k) in Counts k' (seen now k k' s)
  unfolding seen ptt_tail ptt_lead
  ptt-Counts q k s c = ground (arith, c.safe, c.since)

turn-Counts :
    (cfg : RemoteKeyConfig) (r : Reading) (k : Keying) (s : ℕ)
    → Counts k s
    → Counts (turn cfg r.now r.found r.requested r.last_rx_us r.queue k).1 (seen_turn cfg r k s)
unfolding turn seen_turn
turn-Counts cfg r k s c = ptt-Counts cfg r.now _ _ _ (
    due-Counts cfg r.now r.queue _ _
      (guarded-Counts cfg r.now r.found r.requested r.last_rx_us k s c))

turns-Counts :
    (cfg : RemoteKeyConfig) (k : Keying) (s : ℕ) (rs : List Reading)
    → Counts k s
    → Counts (turns cfg k rs) (seen_turns cfg k s rs)
unfolding turns seen_turns
turns-Counts cfg k s [] c = c
turns-Counts cfg k s (r ∷ rs) c =
    turns-Counts cfg (turn cfg r.now r.found r.requested r.last_rx_us r.queue k).1
      (seen_turn cfg r k s) rs (turn-Counts cfg r k s c)

-- What the watchdog counts from is at most the limit ago, so the line is.
since_limit : (limit now since : ℕ) → sub_u64 now since ≤ limit → now < 2 ^ 64 → now ≤ since + limit
since_limit limit now since w n = ground arith

-- A turn of a time within 64 bits that ends with the key line of the device on, ends no more than
-- `max_key_down_ms` after the line was last seen to go on, whatever the turns before it and this
-- one read: edges that go on while the key is down already do not put the limit off.
pub turn_key_line :
    (cfg : RemoteKeyConfig) (found : Bool) (rs : List Reading) (r : Reading)
    → let k = turns cfg (start_keying found) rs in
      let on_since = seen_turn cfg r k (seen_turns cfg (start_keying found) 0 rs) in
      let k' = (turn cfg r.now r.found r.requested r.last_rx_us r.queue k).1 in
      r.now < 2 ^ 64 → k'.key_line ≡ true → r.now ≤ on_since + us cfg.max_key_down_ms
turn_key_line cfg found rs r n on =
    let started : Counts (start_keying found) 0 = record {
      safe = start_keying_lem found;
      since = unfold start_keying in ground arith;
    } in
    let k = turns cfg (start_keying found) rs in
    let kept = turns-Counts cfg (start_keying found) 0 rs started in
    let c = turn-Counts cfg r k _ kept in
    let w =
      turn_watchdog cfg r.now n r.found r.requested r.last_rx_us r.queue k (c.safe.key_held on) in
    since_limit _ _ _ (subst (λ t. sub_u64 r.now t ≤ us cfg.max_key_down_ms) (c.since on) w) n
