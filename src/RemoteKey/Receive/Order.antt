-- ===== src/RemoteKey/Receive/Order.antt =====
-- The jitter buffer stays in the order of its due times.
use cwsd.Shared.{
  ℕ, ◌+◌, ◌-◌, ◌^◌, ◌≤◌, ◌<◌, ◌≡◌, true, false, List, [], ◌∷◌, ◌++◌, All, arith, if◌then◌else◌, ltb,
  drop, Bool-cases, dec_lt, ap, ◌||◌, inl, inr,
}
use cwsd.RemoteKey.Protocol.{Edge, Packet}
use cwsd.RemoteKey.Receive.{
  RemoteKeyConfig, ScheduledEdge, Link, us, idle_link, begin_session, new_session, wants_reset,
  enqueue, enqueue_all, apply_packet, drop_queue, pop_front,
}
use cwsd.RemoteKey.Receive.Events.{Event, packet, silence, played, step, run}

-- Due times rise from `lo` to at most `hi`.
abbrev pub Ascends : ℕ → List ScheduledEdge → ℕ → Type 0
Ascends lo [] hi = lo ≤ hi
Ascends lo (s ∷ q) hi = (lo ≤ s.at_us) × Ascends s.at_us q hi

Ascends-append :
    (lo : ℕ) (q : List ScheduledEdge) (hi : ℕ) (s : ScheduledEdge)
    → Ascends lo q hi
    → hi ≤ s.at_us
    → Ascends lo (q ++ s ∷ []) s.at_us
Ascends-append lo [] hi s h le = omega arith
Ascends-append lo (x ∷ q) hi s h le = (h.0, Ascends-append x.at_us q hi s h.1 le)

Ascends-mono :
    (lo : ℕ) (q : List ScheduledEdge) (hi hi' : ℕ) → Ascends lo q hi → hi ≤ hi' → Ascends lo q hi'
Ascends-mono lo [] hi hi' h le = omega arith
Ascends-mono lo (x ∷ q) hi hi' h le = (h.0, Ascends-mono x.at_us q hi hi' h.1 le)

Ascends-tail : (q : List ScheduledEdge) (hi : ℕ) → Ascends 0 q hi → Ascends 0 (drop 1 q) hi
Ascends-tail [] hi h = h
Ascends-tail (x ∷ []) hi h = omega arith
Ascends-tail (x ∷ y ∷ q) hi h = (omega arith, h.1.1)

-- The latest time that anything in the queue can be due, at time `t`.
abbrev horizon : Link → ℕ → ℕ
horizon l t =
    let last = l.anchor_local_us + (l.last_enqueued_src - l.anchor_src_us) in
    if l.have_anchor then (if ltb t last then last else t) else t

-- The queue is in order at time `t`, and the clocks are far from their ends.
pub record IsOrdered (l : Link) (t : ℕ) : Type 0 where
  pub due : Ascends 0 l.queue (horizon l t)
  pub unanchored : l.have_anchor ≡ false → l.queue ≡ []
  pub anchored : l.have_anchor ≡ true → l.anchor_src_us ≤ l.last_enqueued_src
  pub src_far : l.last_enqueued_src < 2 ^ 63
  pub local_far : l.have_anchor ≡ true → l.anchor_local_us < 2 ^ 63

IsOrdered-later : (l : Link) (t now : ℕ) → t ≤ now → IsOrdered l t → IsOrdered l now
IsOrdered-later l t now h o = record {
  due = Ascends-mono 0 l.queue (horizon l t) (horizon l now) o.due (ground arith);
  unanchored = o.unanchored;
  anchored = o.anchored;
  src_far = o.src_far;
  local_far = o.local_far;
}

module _ (cfg : RemoteKeyConfig) (now : ℕ) (early : now < 2 ^ 62)
    (small : cfg.playout_ms < 2 ^ 32) where
  -- The last entry that `enqueue` makes in an anchored link.
  entry : Link → Edge → ScheduledEdge
  entry l e =
      let at = l.anchor_local_us + (e.ts_us - l.anchor_src_us) in
      record { at_us = if ltb at now then now else at; state = e.state }

  enqueue_anchored :
      (l : Link) (e : Edge)
      → e.ts_us < 2 ^ 63
      → IsOrdered l now
      → l.last_enqueued_src < e.ts_us
      → l.have_anchor ≡ true
      → enqueue cfg now l e
        ≡ record l { last_enqueued_src = e.ts_us; queue = l.queue ++ entry l e ∷ [] }
  unfolding enqueue entry
  enqueue_anchored l e h o new a = ground arith

  anchor_first : Link → Edge → Link
  anchor_first l e = record l {
    have_anchor = true;
    anchor_src_us = e.ts_us;
    anchor_local_us = now + us cfg.playout_ms;
    last_enqueued_src = e.ts_us;
    queue = record { at_us = now + us cfg.playout_ms; state = e.state } ∷ [];
  }

  enqueue_unanchored :
      (l : Link) (e : Edge)
      → IsOrdered l now
      → l.last_enqueued_src < e.ts_us
      → l.have_anchor ≡ false
      → e.ts_us < 2 ^ 63
      → enqueue cfg now l e ≡ anchor_first l e
  unfolding enqueue anchor_first
  enqueue_unanchored l e o new a far = ground (arith, o.unanchored a)

  enqueue_known : (l : Link) (e : Edge) → e.ts_us ≤ l.last_enqueued_src → enqueue cfg now l e ≡ l
  unfolding enqueue
  enqueue_known l e h = ground arith

  anchor_first-IsOrdered :
      (l : Link) (e : Edge) → e.ts_us < 2 ^ 63 → IsOrdered (anchor_first l e) now
  unfolding anchor_first
  anchor_first-IsOrdered l e h = ground arith

  entry-IsOrdered :
      (l : Link) (e : Edge)
      → e.ts_us < 2 ^ 63
      → IsOrdered l now
      → l.last_enqueued_src < e.ts_us
      → l.have_anchor ≡ true
      → IsOrdered (record l { last_enqueued_src = e.ts_us; queue = l.queue ++ entry l e ∷ [] }) now
  unfolding entry
  entry-IsOrdered l e h o new a = record {
    due =
        Ascends-mono 0 (l.queue ++ entry l e ∷ []) (entry l e).at_us _
          (Ascends-append 0 l.queue (horizon l now) (entry l e) o.due (ground arith))
          (ground arith);
    unanchored = λ e. cc;
    anchored = λ _. ground arith;
    src_far = h;
    local_far = o.local_far;
  }

  enqueue-IsOrdered :
      (l : Link) (e : Edge)
      → e.ts_us < 2 ^ 63
      → IsOrdered l now
      → IsOrdered (enqueue cfg now l e) now
  enqueue-IsOrdered l e h o = elim (dec_lt l.last_enqueued_src e.ts_us) [
    | no known ↦ rw (enqueue_known l e (omega arith)) o
    | yes new ↦ elim (Bool-cases l.have_anchor) [
      | inl a ↦ rw (enqueue_anchored l e h o new a) (entry-IsOrdered l e h o new a)
      | inr a ↦ rw (enqueue_unanchored l e o new a h) (anchor_first-IsOrdered l e h)
    ]
  ]

  enqueue_all-IsOrdered :
      (l : Link) (es : List Edge)
      → All (λ e. e.ts_us < 2 ^ 63) es
      → IsOrdered l now
      → IsOrdered (enqueue_all cfg now l es) now
  unfolding enqueue_all
  enqueue_all-IsOrdered l [] h o = o
  enqueue_all-IsOrdered l (e ∷ es) h o =
      enqueue_all-IsOrdered (enqueue cfg now l e) es h.1 (enqueue-IsOrdered l e h.0 o)

  begin_session-IsOrdered :
      (l : Link) (pkt : Packet) → IsOrdered l now → IsOrdered (begin_session l pkt) now
  unfolding begin_session
  begin_session-IsOrdered l pkt o = elim (Bool-cases (new_session l pkt || wants_reset pkt)) [
    | inl fresh ↦ rw fresh (ground arith)
    | inr same ↦ rw same o
  ]

-- The times of the packets in a run rise from `t` on and, with the edges' times, stay far from the
-- ends of their clocks.
abbrev pub Timely : ℕ → List Event → Type 0
Timely t [] = Unit
Timely t (packet now pkt ∷ vs) =
    (t ≤ now) × (now < 2 ^ 62) × All (λ e. e.ts_us < 2 ^ 63) pkt.edges × Timely now vs
Timely t (silence ∷ vs) = Timely t vs
Timely t (played ∷ vs) = Timely t vs

run-IsOrdered :
    (cfg : RemoteKeyConfig) (l : Link) (t : ℕ) (vs : List Event)
    → cfg.playout_ms < 2 ^ 32
    → Timely t vs
    → IsOrdered l t
    → (t' : ℕ) × IsOrdered (run cfg l vs) t'
unfolding run step apply_packet drop_queue pop_front
run-IsOrdered cfg l t [] p h o = (t, o)
run-IsOrdered cfg l t (packet now pkt ∷ vs) p h o =
    run-IsOrdered cfg (apply_packet cfg now l pkt) now vs p h.3 (
      enqueue_all-IsOrdered cfg now h.1 p (begin_session l pkt) pkt.edges h.2
        (begin_session-IsOrdered cfg now h.1 p l pkt (IsOrdered-later l t now h.0 o)))
run-IsOrdered cfg l t (silence ∷ vs) p h o =
    run-IsOrdered cfg (drop_queue l) t vs p h (let far = o.src_far in ground arith)
run-IsOrdered cfg l t (played ∷ vs) p h o = run-IsOrdered cfg (pop_front l) t vs p h (record {
  due = Ascends-tail l.queue (horizon l t) o.due;
  unanchored = λ a. ap (drop 1) (o.unanchored a);
  anchored = o.anchored;
  src_far = o.src_far;
  local_far = o.local_far;
})

-- From an idle link on, however packets, silences and played edges follow one another, the jitter
-- buffer stays in the order of the due times, as long as time does not run back, all times are far
-- from the ends of their clocks, and the playout delay fits 32 bits.
pub run-Ascends :
    (cfg : RemoteKeyConfig) (vs : List Event)
    → cfg.playout_ms < 2 ^ 32
    → Timely 0 vs
    → (hi : ℕ) × Ascends 0 (run cfg idle_link vs).queue hi
run-Ascends cfg vs p h =
    let (t, o) = run-IsOrdered cfg idle_link 0 vs p h (ground arith) in
    (horizon (run cfg idle_link vs) t, o.due)
