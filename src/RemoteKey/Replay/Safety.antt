-- ===== src/RemoteKey/Replay/Safety.antt =====
-- The three safety nets of `replay_worker`: the watchdog, silence, and the session reset.
use cwsd.Shared.{
  ℕ, ◌+◌, ◌^◌, ◌≤◌, ◌<◌, ◌≡◌, ◌≢◌, refl, ap, Bool, true, false, ◌||◌, List, [], ◌∷◌, Bool-cases,
  inl, inr, leb, arith, sub_u64,
}
use cwsd.RemoteKey.Receive.{RemoteKeyConfig, us, ScheduledEdge, drop_queue}
use cwsd.RemoteKey.Replay.{
  Keying, Server, reconnect, apply_reset, apply_silence, apply_watchdog, apply_edge, apply_due,
  guarded, ptt_lead, ptt_tail, turn, make_safe, replay, guarded_link, is_silent,
}
use cwsd.RemoteKey.Replay.Lines.{IsSafe, IsKept, IsSafe-IsKept}

-- The key has been down for no longer than `max_key_down_ms`.
abbrev pub WithinLimit : RemoteKeyConfig → ℕ → Keying → Type 0
WithinLimit cfg now k =
    k.key_is_down ≡ true → sub_u64 now k.key_down_since_us ≤ us cfg.max_key_down_ms

module _ (cfg : RemoteKeyConfig) (now : ℕ) (bounded : now < 2 ^ 64) where
  watchdog-WithinLimit : (k : Keying) → WithinLimit cfg now (apply_watchdog cfg now k)
  unfolding apply_watchdog
  watchdog-WithinLimit k down = ground arith

  edge-WithinLimit :
      (e : ScheduledEdge) (k : Keying)
      → WithinLimit cfg now k
      → WithinLimit cfg now (apply_edge cfg now e k)
  unfolding apply_edge
  edge-WithinLimit e k w down = ground arith

  due-WithinLimit :
      (q : List ScheduledEdge) (k : Keying)
      → WithinLimit cfg now k
      → WithinLimit cfg now (apply_due cfg now q k).1
  unfolding apply_due
  due-WithinLimit [] k w = w
  due-WithinLimit (e ∷ q) k w = elim (Bool-cases (leb e.at_us now)) [
    | inl due ↦ rw due (due-WithinLimit q (apply_edge cfg now e k) (edge-WithinLimit e k w))
    | inr later ↦ rw later w
  ]

  lead-WithinLimit :
      (q : List ScheduledEdge) (k : Keying)
      → WithinLimit cfg now k
      → WithinLimit cfg now (ptt_lead cfg now q k)
  unfolding ptt_lead
  lead-WithinLimit q k w down = ground arith

  tail-WithinLimit :
      (q : List ScheduledEdge) (k : Keying)
      → WithinLimit cfg now k
      → WithinLimit cfg now (ptt_tail cfg now q k)
  unfolding ptt_tail
  tail-WithinLimit q k w down = ground arith

  -- After every turn, whatever its readings, a key that is down went down at most
  -- `max_key_down_ms` before the turn's time. The time fits 64 bits.
  pub turn_watchdog :
      (found requested : Bool) (last_rx_us : ℕ × ℕ) (q : List ScheduledEdge) (k : Keying)
      → WithinLimit cfg now (turn cfg now found requested last_rx_us q k).1
  unfolding turn guarded
  turn_watchdog found requested last_rx_us q k =
      tail-WithinLimit _ _ (lead-WithinLimit _ _ (due-WithinLimit q _ (watchdog-WithinLimit _)))

-- Key and PTT are off, and so are both lines.
pub record IsOff (k : Keying) : Type 0 where
  pub key_up : k.key_is_down ≡ false
  pub ptt_off : k.ptt_is_on ≡ false
  pub key_line_low : k.key_line ≡ false
  pub ptt_line_low : k.ptt_line ≡ false

module _ (cfg : RemoteKeyConfig) (now : ℕ) where
  make_safe-IsOff : (k : Keying) → IsSafe k → IsOff (make_safe k)
  unfolding make_safe
  make_safe-IsOff k s = ground arith

  apply_silence-IsOff : (k : Keying) → IsSafe k → IsOff (apply_silence cfg now true k)
  unfolding apply_silence
  apply_silence-IsOff k s = ground arith

  apply_silence_keeps :
      (silent : Bool) (k : Keying) → IsOff k → IsOff (apply_silence cfg now silent k)
  unfolding apply_silence
  apply_silence_keeps silent k o = ground arith

  apply_watchdog_keeps : (k : Keying) → IsOff k → IsOff (apply_watchdog cfg now k)
  unfolding apply_watchdog
  apply_watchdog_keeps k o = ground arith

  ptt_keeps : (k : Keying) → IsOff k → IsOff (ptt_tail cfg now [] (ptt_lead cfg now [] k))
  unfolding ptt_tail ptt_lead
  ptt_keeps k o = ground arith

  is_silent_lem :
      (last_rx_us : ℕ)
      → last_rx_us ≢ 0
      → last_rx_us + us cfg.silence_ms < now
      → now < 2 ^ 64
      → is_silent cfg now (last_rx_us, last_rx_us) ≡ true
  unfolding is_silent
  is_silent_lem last_rx_us heard late n = ground arith

  turn_silent :
      (found requested : Bool) (last_rx_us : ℕ × ℕ) (k : Keying)
      → IsSafe k
      → (is_silent cfg now last_rx_us || requested) ≡ true
      → let (q, k') = turn cfg now found requested last_rx_us [] k in (q ≡ []) × IsOff k'
  unfolding turn guarded apply_due apply_reset make_safe
  turn_silent found requested last_rx_us k safe silent =
      (refl, ptt_keeps _ (apply_watchdog_keeps _ off))
    where
      kept : IsKept cfg now IsSafe
      kept = IsSafe-IsKept cfg now

      after_reset : Keying
      after_reset = apply_reset cfg now requested (reconnect cfg now found k)

      safe_then : IsSafe after_reset
      safe_then = kept.by_reset requested _ (kept.by_reconnect found k safe)

      off_by_reset : requested ≡ true → IsOff after_reset
      off_by_reset on = rw (on, apply_reset) (make_safe-IsOff _ (kept.by_reconnect found k safe))

      off : IsOff (apply_silence cfg now (is_silent cfg now last_rx_us) after_reset)
      off = elim (Bool-cases (is_silent cfg now last_rx_us)) [
        | inl e ↦ rw e (apply_silence-IsOff after_reset safe_then)
        | inr e ↦ apply_silence_keeps _ after_reset (off_by_reset (ground arith))
      ]

-- When a packet has come, the last one more than `silence_ms` ago, and the lines are safe, a turn
-- that no datagram interrupts empties the queue, drops the anchor, and leaves key and PTT off, and
-- with them both lines. The time fits 64 bits.
pub replay_silent :
    (cfg : RemoteKeyConfig) (now : ℕ) (found : Bool) (s : Server)
    → IsSafe s.keying
    → s.link.last_rx_us ≢ 0
    → s.link.last_rx_us + us cfg.silence_ms < now
    → now < 2 ^ 64
    → let s' = replay cfg now found s in
      (s'.link.queue ≡ []) × (s'.link.have_anchor ≡ false) × IsOff s'.keying
unfolding replay drop_queue
replay_silent cfg now found s safe heard late n =
    let silent = is_silent_lem cfg now s.link.last_rx_us heard late n in
    let t =
      turn_silent cfg now found s.link.reset_requested (s.link.last_rx_us, s.link.last_rx_us)
        s.keying safe (ap (λ b. b || s.link.reset_requested) silent) in
    rw (silent, guarded_link) (t.0, refl, t.1)
