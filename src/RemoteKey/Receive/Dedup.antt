-- ===== src/RemoteKey/Receive/Dedup.antt =====
-- Edges are idempotent: history that is sent again is not queued again.
use cwsd.Shared.{ℕ, ◌≤◌, ◌≡◌, refl, true, false, List, [], ◌∷◌, All, arith}
use cwsd.RemoteKey.Protocol.{Edge, Packet}
use cwsd.RemoteKey.Receive.{
  RemoteKeyConfig, Link, new_session, wants_reset, begin_session, enqueue, enqueue_all,
  apply_packet, drop_queue, pop_front,
}
use cwsd.RemoteKey.Receive.Events.{Event, packet, silence, played, step, run}

module _ (cfg : RemoteKeyConfig) (now : ℕ) where
  -- The highwater mark never falls.
  enqueue_mono :
      (l : Link) (e : Edge) → l.last_enqueued_src ≤ (enqueue cfg now l e).last_enqueued_src
  unfolding enqueue
  enqueue_mono l e = ground arith

  enqueue_all_mono :
      (l : Link) (es : List Edge)
      → l.last_enqueued_src ≤ (enqueue_all cfg now l es).last_enqueued_src
  unfolding enqueue_all
  enqueue_all_mono l [] = omega arith
  enqueue_all_mono l (e ∷ es) =
      omega (arith, enqueue_mono l e, enqueue_all_mono (enqueue cfg now l e) es)

  enqueue_covers : (l : Link) (e : Edge) → e.ts_us ≤ (enqueue cfg now l e).last_enqueued_src
  unfolding enqueue
  enqueue_covers l e = ground arith

  -- A mark above all that a packet's edges reach is above each of them.
  enqueue_all_covers :
      (l : Link) (es : List Edge) (m : ℕ)
      → (enqueue_all cfg now l es).last_enqueued_src ≤ m
      → All (λ e. e.ts_us ≤ m) es
  unfolding enqueue_all
  enqueue_all_covers l [] m h = tt
  enqueue_all_covers l (e ∷ es) m h =
      let l' = enqueue cfg now l e in
      (omega (arith, enqueue_covers l e, enqueue_all_mono l' es), enqueue_all_covers l' es m h)

  -- Edges at or below the highwater mark change nothing.
  enqueue_all_known :
      (l : Link) (es : List Edge)
      → All (λ e. e.ts_us ≤ l.last_enqueued_src) es
      → enqueue_all cfg now l es ≡ l
  unfolding enqueue_all
  enqueue_all_known l [] h = refl
  enqueue_all_known l (e ∷ es) h = rw (same, enqueue_all_known l es h.1)
    where
      same : enqueue cfg now l e ≡ l
      same = unfold enqueue in ground arith

-- The packet is of session `id` and asks for no reset.
pub record Continues (id : ℕ) (pkt : Packet) : Type 0 where
  pub same_session : pkt.session_id ≡ id
  pub no_reset : wants_reset pkt ≡ false

abbrev pub EventContinues : ℕ → Event → Type 0
EventContinues id (packet now pkt) = Continues id pkt
EventContinues id silence = Unit
EventContinues id played = Unit

-- The link is in session `id`, with the highwater mark at `m` or above.
record Holds (id m : ℕ) (l : Link) : Type 0 where
  in_session : l.have_session ≡ true
  session : l.session_id ≡ id
  mark : m ≤ l.last_enqueued_src

module _ (cfg : RemoteKeyConfig) where
  begin_session_lem :
      {id m : ℕ} (l : Link) (pkt : Packet)
      → Holds id m l
      → Continues id pkt
      → begin_session l pkt ≡ l
  unfolding begin_session
  begin_session_lem l pkt h c = ground arith

  enqueue-Holds :
      {id m : ℕ} (now : ℕ) (l : Link) (e : Edge) → Holds id m l → Holds id m (enqueue cfg now l e)
  unfolding enqueue
  enqueue-Holds now l e h = ground arith

  enqueue_all-Holds :
      {id m : ℕ} (now : ℕ) (l : Link) (es : List Edge)
      → Holds id m l
      → Holds id m (enqueue_all cfg now l es)
  unfolding enqueue_all
  enqueue_all-Holds now l [] h = h
  enqueue_all-Holds now l (e ∷ es) h =
      enqueue_all-Holds now (enqueue cfg now l e) es (enqueue-Holds now l e h)

  step-Holds :
      {id m : ℕ} (l : Link) (v : Event)
      → EventContinues id v
      → Holds id m l
      → Holds id m (step cfg l v)
  unfolding step apply_packet drop_queue pop_front
  step-Holds {id} {m} l (packet now pkt) c h =
      rw (begin_session_lem l pkt h c) (enqueue_all-Holds now l pkt.edges h)
  step-Holds l silence c h = record {
    in_session = h.in_session;
    session = h.session;
    mark = h.mark;
  }
  step-Holds l played c h = record { in_session = h.in_session; session = h.session; mark = h.mark }

  run-Holds :
      {id m : ℕ} (l : Link) (vs : List Event)
      → All (EventContinues id) vs
      → Holds id m l
      → Holds id m (run cfg l vs)
  unfolding run
  run-Holds l [] c h = h
  run-Holds l (v ∷ vs) c h = run-Holds (step cfg l v) vs c.1 (step-Holds l v c.0 h)

  begin_session-Holds : (l : Link) (pkt : Packet) → Holds pkt.session_id 0 (begin_session l pkt)
  unfolding begin_session new_session
  begin_session-Holds l pkt = ground arith

  -- A packet that asks for no reset and has been received changes nothing when it comes again,
  -- however often the link has in between received packets of the same session that ask for no
  -- reset, played an edge, or found the stream silent, which empties the queue and drops the
  -- anchor.
  pub apply_packet_again :
      (l : Link) (pkt : Packet) (vs : List Event) (t t' : ℕ)
      → wants_reset pkt ≡ false
      → All (EventContinues pkt.session_id) vs
      → let l' = run cfg (apply_packet cfg t l pkt) vs in apply_packet cfg t' l' pkt ≡ l'
  unfolding apply_packet
  apply_packet_again l pkt vs t t' plain c =
      let began = begin_session l pkt in
      let after = enqueue_all cfg t began pkt.edges in
      let first = enqueue_all-Holds t began pkt.edges (begin_session-Holds l pkt) in
      let holds =
        run-Holds {id = pkt.session_id} {m = after.last_enqueued_src} after vs c
          (record { in_session = first.in_session; session = first.session; mark = omega arith }) in
      rw (begin_session_lem _ pkt holds (record { same_session = refl; no_reset = plain })) (
        enqueue_all_known cfg t' (run cfg after vs) pkt.edges
          (enqueue_all_covers cfg t began pkt.edges _ holds.mark))
