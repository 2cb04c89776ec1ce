-- ===== src/RemoteKey/Replay/Ptt.antt =====
-- PTT sequencing in `replay_worker`, and how long a turn sleeps.
use cwsd.Shared.{ℕ, ◌+◌, ◌^◌, ◌≤◌, ◌<◌, ◌≡◌, true, false, List, ◌∷◌, arith}
use cwsd.RemoteKey.Receive.{RemoteKeyConfig, us, ScheduledEdge}
use cwsd.RemoteKey.Replay.{Keying, is_down, ptt_lead, ptt_tail, wake}

module _ (cfg : RemoteKeyConfig) (now : ℕ) (early : now < 2 ^ 62) where
  -- While PTT waits with the key up past its release time for a key-down that is due within the
  -- tail, a turn keeps PTT on and does not sleep. The time is below 2 ^ 62, and the tail fits 32
  -- bits.
  pub pending_spins :
      (e : ScheduledEdge) (q : List ScheduledEdge) (k : Keying)
      → is_down e ≡ true
      → now < e.at_us
      → e.at_us < now + us cfg.ptt_tail_ms
      → cfg.ptt_tail_ms < 2 ^ 32
      → k.ptt_is_on ≡ true
      → k.key_is_down ≡ false
      → k.ptt_release_at_us ≤ now
      → let k' = ptt_tail cfg now (e ∷ q) (ptt_lead cfg now (e ∷ q) k) in
        (k'.ptt_is_on ≡ true) × (wake cfg now (e ∷ q) k' ≤ now)
  unfolding ptt_tail ptt_lead wake
  pending_spins e q k d soon near small on up past = ground arith

  -- With the key up, PTT off and its release time past, a turn that raises PTT for a key-down
  -- within the lead but not within the tail lowers it again at once. The time is below 2 ^ 62, and
  -- lead and tail fit 32 bits.
  pub lead_undone :
      (e : ScheduledEdge) (q : List ScheduledEdge) (k : Keying)
      → is_down e ≡ true
      → now + us cfg.ptt_tail_ms ≤ e.at_us
      → e.at_us ≤ now + us cfg.ptt_lead_ms
      → cfg.ptt_tail_ms < 2 ^ 32
      → cfg.ptt_lead_ms < 2 ^ 32
      → k.ptt_is_on ≡ false
      → k.key_is_down ≡ false
      → k.ptt_release_at_us ≤ now
      → ((ptt_lead cfg now (e ∷ q) k).ptt_is_on ≡ true)
        × ((ptt_tail cfg now (e ∷ q) (ptt_lead cfg now (e ∷ q) k)).ptt_is_on ≡ false)
  unfolding ptt_tail ptt_lead
  lead_undone e q k d far lead st sl off up past = ground arith
