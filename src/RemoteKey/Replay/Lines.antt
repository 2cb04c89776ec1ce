-- ===== src/RemoteKey/Replay/Lines.antt =====
-- The lines of the serial device against what `replay_worker` holds to be on.
use cwsd.Shared.{ℕ, ◌≡◌, Bool, true, false, List, [], ◌∷◌, Bool-cases, inl, inr, leb, arith}
use cwsd.RemoteKey.Receive.{RemoteKeyConfig, ScheduledEdge}
use cwsd.RemoteKey.Replay.{
  Keying, start_keying, reconnect, apply_reset, apply_silence, apply_watchdog, apply_edge,
  apply_due, ptt_lead, ptt_tail, turn,
}

-- PTT is on while the key is down, and no line is on that the thread does not hold to be on, or
-- while no device is open.
pub record IsSafe (k : Keying) : Type 0 where
  pub ptt_with_key : k.key_is_down ≡ true → k.ptt_is_on ≡ true
  pub key_held : k.key_line ≡ true → k.key_is_down ≡ true
  pub ptt_held : k.ptt_line ≡ true → k.ptt_is_on ≡ true
  pub key_closed : k.is_open ≡ false → k.key_line ≡ false
  pub ptt_closed : k.is_open ≡ false → k.ptt_line ≡ false

-- The device is open and its lines are what the thread holds them to be.
pub record Mirrors (k : Keying) : Type 0 where
  pub opened : k.is_open ≡ true
  pub key_same : k.key_line ≡ k.key_is_down
  pub ptt_same : k.ptt_line ≡ k.ptt_is_on
  pub ptt_with_key : k.key_is_down ≡ true → k.ptt_is_on ≡ true

module _ (cfg : RemoteKeyConfig) (now : ℕ) where
  -- What every step of a turn keeps, a turn keeps.
  pub record IsKept (P : Keying → Type 0) : Type 0 where
    pub by_reconnect : (found : Bool) (k : Keying) → P k → P (reconnect cfg now found k)
    pub by_reset : (requested : Bool) (k : Keying) → P k → P (apply_reset cfg now requested k)
    pub by_silence : (silent : Bool) (k : Keying) → P k → P (apply_silence cfg now silent k)
    pub by_watchdog : (k : Keying) → P k → P (apply_watchdog cfg now k)
    pub by_edge : (e : ScheduledEdge) (k : Keying) → P k → P (apply_edge cfg now e k)
    pub by_lead : (q : List ScheduledEdge) (k : Keying) → P k → P (ptt_lead cfg now q k)
    pub by_tail : (q : List ScheduledEdge) (k : Keying) → P k → P (ptt_tail cfg now q k)

  apply_due_kept :
      {P : Keying → Type 0} (kept : IsKept P) (q : List ScheduledEdge) (k : Keying)
      → P k
      → P (apply_due cfg now q k).1
  unfolding apply_due
  apply_due_kept kept [] k s = s
  apply_due_kept kept (e ∷ q) k s = elim (Bool-cases (leb e.at_us now)) [
    | inl due ↦ rw due (apply_due_kept kept q (apply_edge cfg now e k) (kept.by_edge e k s))
    | inr later ↦ rw later s
  ]

  pub turn_kept :
      {P : Keying → Type 0}
      → IsKept P
      → (found requested : Bool) (last_rx_us : ℕ × ℕ) (q : List ScheduledEdge) (k : Keying) → P k
      → P (turn cfg now found requested last_rx_us q k).1
  unfolding turn
  turn_kept kept found requested last_rx_us q k s = kept.by_tail _ _ (
      kept.by_lead _ _ (
        apply_due_kept kept q _ (
          kept.by_watchdog _
            (kept.by_silence _ _ (kept.by_reset requested _ (kept.by_reconnect found k s))))))

  pub IsSafe-IsKept : IsKept IsSafe
  unfolding reconnect apply_reset apply_silence apply_watchdog apply_edge ptt_lead ptt_tail
  IsSafe-IsKept = record {
    by_reconnect = λ found k s. ground arith;
    by_reset = λ requested k s. ground arith;
    by_silence = λ silent k s. ground arith;
    by_watchdog = λ k s. ground arith;
    by_edge = λ e k s. ground arith;
    by_lead = λ q k s. ground arith;
    by_tail = λ q k s. ground arith;
  }

  Mirrors-IsKept : IsKept Mirrors
  unfolding reconnect apply_reset apply_silence apply_watchdog apply_edge ptt_lead ptt_tail
  Mirrors-IsKept = record {
    by_reconnect = λ found k s. ground arith;
    by_reset = λ requested k s. ground arith;
    by_silence = λ silent k s. ground arith;
    by_watchdog = λ k s. ground arith;
    by_edge = λ e k s. ground arith;
    by_lead = λ q k s. ground arith;
    by_tail = λ q k s. ground arith;
  }

-- What a turn reads: the time, whether a device can be opened, and what the other thread has left.
pub record Reading : Type 0 where
  pub now : ℕ
  pub found : Bool
  pub requested : Bool
  pub last_rx_us : ℕ × ℕ
  pub queue : List ScheduledEdge

-- The keying after some turns, whatever each of them reads.
unfoldable pub turns : RemoteKeyConfig → Keying → List Reading → Keying
turns cfg k [] = k
turns cfg k (r ∷ rs) = turns cfg (turn cfg r.now r.found r.requested r.last_rx_us r.queue k).1 rs

turns_kept :
    (cfg : RemoteKeyConfig) {P : Keying → Type 0} (kept : (now : ℕ) → IsKept cfg now P) (k : Keying)
    (rs : List Reading)
    → P k
    → P (turns cfg k rs)
unfolding turns
turns_kept cfg kept k [] s = s
turns_kept cfg kept k (r ∷ rs) s =
    turns_kept cfg kept (turn cfg r.now r.found r.requested r.last_rx_us r.queue k).1 rs
      (turn_kept cfg r.now (kept r.now) r.found r.requested r.last_rx_us r.queue k s)

pub start_keying_lem : (found : Bool) → IsSafe (start_keying found)
unfolding start_keying
start_keying_lem found = ground arith

start_keying_open : Mirrors (start_keying true)
unfolding start_keying
start_keying_open = ground arith

-- After any turns, whatever the other thread does between their reads: PTT is held on while the key
-- is held down, and neither line is on that the thread does not hold to be on, or while no device is open. If the device was
-- found at the start, the lines are just what the thread holds them to be, so the key line is never
-- on without the PTT line.
pub turns-IsSafe :
    (cfg : RemoteKeyConfig) (found : Bool) (rs : List Reading)
    → IsSafe (turns cfg (start_keying found) rs) × Mirrors (turns cfg (start_keying true) rs)
turns-IsSafe cfg found rs = (
  turns_kept cfg (IsSafe-IsKept cfg) (start_keying found) rs (start_keying_lem found),
  turns_kept cfg (Mirrors-IsKept cfg) (start_keying true) rs start_keying_open,
)
