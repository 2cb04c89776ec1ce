-- ===== src/RemoteKey/Receive/Schedule.antt =====
-- When queued edges are due: the operator's spacing, and the order of the queue.
use cwsd.Shared.{
  ℕ, ◌+◌, ◌-◌, ◌^◌, ◌≤◌, ◌<◌, ◌≡◌, refl, sym, ◌∙◌, true, ◌||◌, List, [], ◌∷◌, ◌++◌, arith,
  append_assoc, append-nil,
}
use mathlib.Core.List.{map}
use cwsd.RemoteKey.Protocol.{Edge, Packet}
use cwsd.RemoteKey.Receive.{
  RemoteKeyConfig, ScheduledEdge, Link, us, new_session, wants_reset, begin_session, enqueue,
  enqueue_all, apply_packet,
}

-- The edges come in order, each after `lo`, and their times are far from the end of the clock.
abbrev pub Ascending : ℕ → List Edge → Type 0
Ascending lo [] = Unit
Ascending lo (e ∷ es) = (lo < e.ts_us) × (e.ts_us < 2 ^ 63) × Ascending e.ts_us es

-- The queue entry of an edge that keeps its distance to the anchor `src`, played at `local`.
abbrev pub replayed : ℕ → ℕ → Edge → ScheduledEdge
replayed local src e = record { at_us = local + (e.ts_us - src); state = e.state }

module _ (cfg : RemoteKeyConfig) (now : ℕ) where
  enqueue_on_time :
      (l : Link) (e : Edge)
      → l.have_anchor ≡ true
      → l.last_enqueued_src < e.ts_us
      → l.anchor_src_us ≤ e.ts_us
      → e.ts_us < 2 ^ 63
      → l.anchor_local_us < 2 ^ 63
      → now ≤ l.anchor_local_us + (e.ts_us - l.anchor_src_us)
      → enqueue cfg now l e ≡ record l {
        last_enqueued_src = e.ts_us;
        queue = l.queue ++ replayed l.anchor_local_us l.anchor_src_us e ∷ [];
      }
  unfolding enqueue
  enqueue_on_time l e a b c d f g = ground arith

  enqueue_all_on_time :
      (l : Link) (es : List Edge)
      → l.have_anchor ≡ true
      → l.anchor_src_us ≤ l.last_enqueued_src
      → l.anchor_local_us < 2 ^ 63
      → now ≤ l.anchor_local_us + (l.last_enqueued_src - l.anchor_src_us)
      → Ascending l.last_enqueued_src es
      → (enqueue_all cfg now l es).queue
        ≡ l.queue ++ map (replayed l.anchor_local_us l.anchor_src_us) es
  unfolding enqueue_all
  enqueue_all_on_time l [] a b c d h = sym (append-nil l.queue)
  enqueue_all_on_time l (e ∷ es) a b c d h =
      let l' = record l {
        last_enqueued_src = e.ts_us;
        queue = l.queue ++ replayed l.anchor_local_us l.anchor_src_us e ∷ [];
      } in
      rw (enqueue_on_time l e a h.0 (omega arith) h.1 c (omega arith), enqueue_all)
        (enqueue_all_on_time l' es a (omega arith) c (omega arith) h.2
          ∙ append_assoc l.queue (replayed l.anchor_local_us l.anchor_src_us e ∷ []) (map _ es))

  enqueue_keeps :
      (l : Link) (e : Edge)
      → let l' = enqueue cfg now l e in
        (l'.session_id ≡ l.session_id) × (l'.reset_requested ≡ l.reset_requested)
  unfolding enqueue
  enqueue_keeps l e = ground arith

  enqueue_all_keeps :
      (l : Link) (es : List Edge)
      → let l' = enqueue_all cfg now l es in
        (l'.session_id ≡ l.session_id) × (l'.reset_requested ≡ l.reset_requested)
  unfolding enqueue_all
  enqueue_all_keeps l [] = (refl, refl)
  enqueue_all_keeps l (e ∷ es) =
      let rest = enqueue_all_keeps (enqueue cfg now l e) es in
      (rest.0 ∙ (enqueue_keeps l e).0, rest.1 ∙ (enqueue_keeps l e).1)

  -- The link after the first edge of a session.
  abbrev anchored_at : Link → Packet → Edge → Link
  anchored_at l pkt e = record l {
    session_id = pkt.session_id;
    have_session = true;
    reset_requested = true;
    have_anchor = true;
    anchor_src_us = e.ts_us;
    anchor_local_us = now + us cfg.playout_ms;
    last_enqueued_src = e.ts_us;
    queue = replayed (now + us cfg.playout_ms) e.ts_us e ∷ [];
  }

  first_edge :
      (l : Link) (pkt : Packet) (e : Edge)
      → (new_session l pkt || wants_reset pkt) ≡ true
      → now < 2 ^ 62
      → cfg.playout_ms < 2 ^ 32
      → 0 < e.ts_us
      → enqueue cfg now (begin_session l pkt) e ≡ anchored_at l pkt e
  unfolding begin_session enqueue
  first_edge l pkt e fresh n p h = rw fresh (ground arith)

  -- When a packet with edges starts or resets a session, its first edge is due after the playout
  -- delay, and each later edge as long after the first as it was on the operator's clock; the
  -- replay is asked for a reset. The edges come in ascending order after time 0, the clocks are
  -- far from their ends, and the playout delay fits 32 bits.
  pub apply_packet_spacing :
      (l : Link) (pkt : Packet) (e : Edge) (es : List Edge)
      → pkt.edges ≡ e ∷ es
      → (new_session l pkt || wants_reset pkt) ≡ true
      → now < 2 ^ 62
      → cfg.playout_ms < 2 ^ 32
      → Ascending 0 (e ∷ es)
      → let l' = apply_packet cfg now l pkt in
        (l'.queue ≡ map (replayed (now + us cfg.playout_ms) e.ts_us) (e ∷ es))
        × (l'.reset_requested ≡ true)
        × (l'.session_id ≡ pkt.session_id)
  unfolding apply_packet enqueue_all
  apply_packet_spacing l pkt e es split fresh n p h =
      let keeps = enqueue_all_keeps (anchored_at l pkt e) es in
      rw (split, first_edge l pkt e fresh n p h.0, enqueue_all)
        (
          enqueue_all_on_time (anchored_at l pkt e) es refl (omega arith) (omega arith)
              (omega arith) h.2,
          keeps.1,
          keeps.0,
        )
