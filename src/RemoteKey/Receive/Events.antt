-- ===== src/RemoteKey/Receive/Events.antt =====
-- What the two workers of src/remote_key_server.cpp do to what they share, one step after another.
use cwsd.Shared.{ℕ, List, [], ◌∷◌}
use cwsd.RemoteKey.Protocol.{Packet}
use cwsd.RemoteKey.Receive.{RemoteKeyConfig, Link, apply_packet, drop_queue, pop_front}

-- A packet comes at a local time; `replay_worker` finds the stream silent, or plays the first edge.
pub data Event : Type 0 where
  packet : ℕ → Packet → Event
  silence played : Event

unfoldable pub step : RemoteKeyConfig → Link → Event → Link
step cfg l (packet now pkt) = apply_packet cfg now l pkt
step cfg l silence = drop_queue l
step cfg l played = pop_front l

unfoldable pub run : RemoteKeyConfig → Link → List Event → Link
run cfg l [] = l
run cfg l (v ∷ vs) = run cfg (step cfg l v) vs
