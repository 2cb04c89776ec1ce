-- ===== src/RemoteKey/Tests.antt =====
-- Packets and turns at concrete inputs.
use cwsd.Shared.{
  ℕ, ◌+◌, ◌*◌, ◌≤◌, ◌≡◌, ◌≢◌, ◌↔◌, true, false, none, some, List, [], ◌∷◌, ◌++◌, length, get_or,
  refl, arith,
}
use mathlib.Core.List.{map}
use cwsd.RemoteKey.Protocol.{
  Edge, Packet, header_bytes, edge_bytes, max_packet_bytes, magic, version, encode, decode,
}
use cwsd.RemoteKey.Protocol.RoundTrip.{decode-encode}
use cwsd.RemoteKey.Protocol.Bounds.{decode_accepts}
use cwsd.RemoteKey.Receive.{
  RemoteKeyConfig, ScheduledEdge, idle_link, new_session, wants_reset, apply_packet,
}
use cwsd.RemoteKey.Receive.Events.{packet, silence, played, run}
use cwsd.RemoteKey.Receive.Dedup.{apply_packet_again}
use cwsd.RemoteKey.Receive.Schedule.{apply_packet_spacing}
use cwsd.RemoteKey.Receive.Order.{Ascends, run-Ascends}
use cwsd.RemoteKey.Replay.{
  Keying, start_keying, turn, replay, guarded, ptt_tail, ptt_lead, apply_due, apply_watchdog,
  apply_silence, is_silent, apply_reset, reconnect, apply_edge, is_down,
}
use cwsd.RemoteKey.Replay.Lines.{IsSafe, Mirrors, Reading, turns, turns-IsSafe}
use cwsd.RemoteKey.Replay.Safety.{IsOff, replay_silent}
use cwsd.RemoteKey.Replay.Watchdog.{seen, seen_due, seen_turn, seen_turns, turn_key_line}
use cwsd.RemoteKey.Replay.Device.{turns-unplugged, unplugged}

abbrev edge_at : ℕ → ℕ → Edge
edge_at t state = record { ts_us = t; state = state }

-- Down after a millisecond, up after sixty more, in session 258.
abbrev dit : Packet
dit = record { session_id = 258; flags = 0; edges = edge_at 1000 1 ∷ edge_at 61000 0 ∷ [] }

decode-encode_example :
    (decode (encode dit ++ 9 ∷ []) ≡ some dit) × (length (encode dit) ≤ max_packet_bytes)
decode-encode_example = decode-encode dit (9 ∷ []) (record {
  session_fits = omega arith;
  flags_fit = omega arith;
  edges_fit = (
    record { ts_fits = omega arith; state_fits = omega arith },
    (record { ts_fits = omega arith; state_fits = omega arith }, tt),
  );
})

-- A datagram with no edges.
abbrev empty_datagram : List ℕ
empty_datagram = 0xc7 ∷ 1 ∷ 0 ∷ 1 ∷ 2 ∷ 0 ∷ []

abbrev empty_packet : Packet
empty_packet = record { session_id = 258; flags = 0; edges = [] }

decode_accepts_example :
    ((decode empty_datagram ≢ none)
      ↔ (header_bytes ≤ length empty_datagram)
        × (get_or empty_datagram 0 0 ≡ magic)
        × (get_or empty_datagram 1 0 ≡ version)
        × (header_bytes + edge_bytes * get_or empty_datagram 5 0 ≤ length empty_datagram))
    × ((p : Packet) → decode empty_datagram ≡ some p → length p.edges ≡ 0)
decode_accepts_example = decode_accepts empty_datagram

abbrev cfg : RemoteKeyConfig
cfg = record {
  playout_ms = 80;
  silence_ms = 2000;
  max_key_down_ms = 5000;
  ptt_lead_ms = 15;
  ptt_tail_ms = 250;
}

-- The same packet, once more after its first edge was played.
apply_packet_again_example :
    apply_packet cfg 20000
      (run cfg (apply_packet cfg 10000 idle_link dit) (played ∷ silence ∷ []))
      dit
    ≡ run cfg (apply_packet cfg 10000 idle_link dit) (played ∷ silence ∷ [])
unfolding wants_reset
apply_packet_again_example =
    apply_packet_again cfg idle_link dit (played ∷ silence ∷ []) 10000 20000 refl (tt, (tt, tt))

apply_packet_spacing_example :
    let l' = apply_packet cfg 10000 idle_link dit in
    (l'.queue ≡ record { at_us = 90000; state = 1 } ∷ record { at_us = 150000; state = 0 } ∷ [])
    × (l'.reset_requested ≡ true)
    × (l'.session_id ≡ 258)
unfolding new_session
apply_packet_spacing_example =
    apply_packet_spacing cfg 10000 idle_link dit (edge_at 1000 1) (edge_at 61000 0 ∷ []) refl refl
      (omega arith) (omega arith) (omega arith, omega arith, (omega arith, omega arith, tt))

run-Ascends_example :
    (hi : ℕ) × Ascends 0 (run cfg idle_link (packet 10000 dit ∷ played ∷ [])).queue hi
run-Ascends_example =
    run-Ascends cfg (packet 10000 dit ∷ played ∷ []) (omega arith)
      (omega arith, omega arith, (omega arith, (omega arith, tt)), tt)

abbrev down_at : ℕ → ScheduledEdge
down_at t = record { at_us = t; state = 1 }

-- A turn that puts the key down, and a turn that finds a reset requested.
abbrev readings : List Reading
readings =
    record {
      now = 90000;
      found = true;
      requested = false;
      last_rx_us = (10000, 10000);
      queue = down_at 90000 ∷ [];
    }
    ∷ record {
      now = 95000;
      found = false;
      requested = true;
      last_rx_us = (93000, 93000);
      queue = [];
    }
    ∷ []

turns-IsSafe_example :
    IsSafe (turns cfg (start_keying false) readings)
    × Mirrors (turns cfg (start_keying true) readings)
turns-IsSafe_example = turns-IsSafe cfg false readings

-- The key is down since 0.1 s.
abbrev keyed : Keying
keyed = record {
  is_open = true;
  key_line = true;
  ptt_line = true;
  key_is_down = true;
  key_down_since_us = 100000;
  ptt_is_on = true;
  ptt_release_at_us = 0;
  last_iface_check = 0;
}

-- A key-down, and another one while the key is down.
abbrev two_downs : List Reading
two_downs =
    record {
      now = 90000;
      found = true;
      requested = false;
      last_rx_us = (10000, 10000);
      queue = down_at 90000 ∷ [];
    }
    ∷ record {
      now = 4000000;
      found = true;
      requested = false;
      last_rx_us = (3900000, 3900000);
      queue = down_at 4000000 ∷ [];
    }
    ∷ []

-- The last turn before the watchdog.
abbrev last_turn : Reading
last_turn = record {
  now = 5090000;
  found = true;
  requested = false;
  last_rx_us = (5000000, 5000000);
  queue = [];
}

turn_key_line_example : 5090000 ≤ 90000 + 5000000
unfolding seen_turn seen_turns seen seen_due turns turn guarded ptt_tail ptt_lead apply_due
    apply_watchdog apply_silence is_silent apply_reset reconnect apply_edge is_down start_keying
turn_key_line_example = turn_key_line cfg true two_downs last_turn (omega arith) refl

replay_silent_example :
    let s' = replay cfg 3000000 true (record {
      link = record idle_link {
        last_rx_us = 500000;
        queue = down_at 3500000 ∷ [];
        have_anchor = true;
      };
      keying = keyed;
    }) in
    (s'.link.queue ≡ []) × (s'.link.have_anchor ≡ false) × IsOff s'.keying
replay_silent_example =
    replay_silent cfg 3000000 true
      (record {
        link = record idle_link {
          last_rx_us = 500000;
          queue = down_at 3500000 ∷ [];
          have_anchor = true;
        };
        keying = keyed;
      })
      (ground arith) (omega arith) (omega arith) (omega arith)

turns-unplugged_example :
    (turns cfg keyed readings ≡ turns cfg keyed (map unplugged readings))
    × ((turns cfg keyed readings).is_open ≡ true)
turns-unplugged_example = turns-unplugged cfg keyed readings refl
