-- ===== src/AudioStream/Tests.antt =====
-- Sweeps and turns at concrete inputs.
use cwsd.Shared.{ℕ, ◌≡◌, true, some, List, [], ◌∷◌, arith}
use cwsd.AudioStream.{Address, client_key, AudioStreamServer, Reading, frames, work}
use cwsd.AudioStream.Subscribers.{Sweep, sweeps, last_seen, last_seen-sweeps}
use cwsd.AudioStream.Numbers.{Numbered, work-Numbered}

abbrev near : Address
near = record { s_addr = 1; sin_port = 4 }

abbrev far : Address
far = record { s_addr = 2; sin_port = 4 }

-- The near client is heard in both sweeps, the far one only in the first.
abbrev two_sweeps : List Sweep
two_sweeps =
    (record { from = near; now = 5 } ∷ record { from = far; now = 6 } ∷ [], 10)
    ∷ (record { from = near; now = 10005 } ∷ [], 10010)
    ∷ []

last_seen-sweeps_example : last_seen (client_key near) (sweeps 10000 two_sweeps []) ≡ some 10005
unfolding client_key
last_seen-sweeps_example = last_seen-sweeps (client_key near) 10000 two_sweeps (
  omega arith,
  omega arith,
  (omega arith, (omega arith, tt)),
  (omega arith, omega arith, (omega arith, tt), tt),
)

-- A server that captures, with the near client, before the counter wraps round.
abbrev streaming : AudioStreamServer
streaming = record {
  clients = (65540, record { addr = near; last_seen_ms = 0 }) ∷ [];
  sequence = 4294967295;
  capturing = true;
  capture_was_open = true;
}

abbrev reading : List ℕ → Reading
reading payload = record {
  opens = true;
  datagrams = [];
  now = 20;
  captured = frames (some payload);
}

work-Numbered_example :
    Numbered 4294967295
      (work 10000 (reading (1 ∷ 2 ∷ []) ∷ reading [] ∷ reading (3 ∷ []) ∷ []) streaming).1
      (work 10000 (reading (1 ∷ 2 ∷ []) ∷ reading [] ∷ reading (3 ∷ []) ∷ []) streaming).0.sequence
work-Numbered_example =
    work-Numbered 10000 (reading (1 ∷ 2 ∷ []) ∷ reading [] ∷ reading (3 ∷ []) ∷ []) streaming
      (omega arith)
