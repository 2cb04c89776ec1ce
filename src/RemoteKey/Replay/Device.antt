-- ===== src/RemoteKey/Replay/Device.antt =====
-- What `replay_worker` notices of the serial device.
use cwsd.Shared.{ℕ, ◌≡◌, refl, ap, ◌∙◌, Bool, true, false, List, [], ◌∷◌, arith}
use cwsd.RemoteKey.Receive.{RemoteKeyConfig, ScheduledEdge}
use mathlib.Core.List.{map}
use cwsd.RemoteKey.Replay.{
  Keying, reconnect, apply_reset, apply_silence, apply_watchdog, apply_edge, ptt_lead, ptt_tail,
  turn, guarded,
}
use cwsd.RemoteKey.Replay.Lines.{Reading, turns, IsKept, turn_kept}

module _ (cfg : RemoteKeyConfig) (now : ℕ) where
  reconnect_open : (found : Bool) (k : Keying) → k.is_open ≡ true → reconnect cfg now found k ≡ k
  unfolding reconnect
  reconnect_open found k o = ground arith

  turn_open :
      (found found' requested : Bool) (last_rx_us : ℕ × ℕ) (q : List ScheduledEdge) (k : Keying)
      → k.is_open ≡ true
      → turn cfg now found requested last_rx_us q k ≡ turn cfg now found' requested last_rx_us q k
  unfolding turn guarded
  turn_open found found' requested last_rx_us q k o =
      rw (reconnect_open found k o, reconnect_open found' k o)

  IsOpen-IsKept : IsKept cfg now (λ k. k.is_open ≡ true)
  unfolding reconnect apply_reset apply_silence apply_watchdog apply_edge ptt_lead ptt_tail
  IsOpen-IsKept = record {
    by_reconnect = λ found k s. ground arith;
    by_reset = λ requested k s. ground arith;
    by_silence = λ silent k s. ground arith;
    by_watchdog = λ k s. ground arith;
    by_edge = λ e k s. ground arith;
    by_lead = λ q k s. ground arith;
    by_tail = λ q k s. ground arith;
  }

-- The reading with no device to be found.
abbrev pub unplugged : Reading → Reading
unplugged r = record r { found = false }

-- Once the device is open, it makes no difference to any turns whether the device can be found in
-- them, and it counts as open after them.
pub turns-unplugged :
    (cfg : RemoteKeyConfig) (k : Keying) (rs : List Reading)
    → k.is_open ≡ true
    → (turns cfg k rs ≡ turns cfg k (map unplugged rs)) × ((turns cfg k rs).is_open ≡ true)
unfolding turns
turns-unplugged cfg k [] o = (refl, o)
turns-unplugged cfg k (r ∷ rs) o =
    let k' = (turn cfg r.now r.found r.requested r.last_rx_us r.queue k).1 in
    let o' =
      turn_kept cfg r.now (IsOpen-IsKept cfg r.now) r.found r.requested r.last_rx_us r.queue k o in
    let rest = turns-unplugged cfg k' rs o' in
    (
      rest.0
          ∙ ap (λ t. turns cfg t.1 (map unplugged rs))
              (turn_open cfg r.now r.found false r.requested r.last_rx_us r.queue k o),
      rest.1,
    )
