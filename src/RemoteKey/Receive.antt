-- ===== src/RemoteKey/Receive.antt =====
-- src/remote_key_server.cpp, `receive_worker`: from datagrams to the jitter buffer. A turn of its
-- loop is a function of the datagram that `recvfrom` returned and of the time that `now_us` read.
pub mod Events
pub mod Dedup
pub mod Order
pub mod Schedule
use cwsd.Shared.{
  ℕ, ◌*◌, Bool, true, false, not, ◌||◌, Option, none, some, List, [], ◌∷◌, ◌++◌, take, drop, ltb,
  leb, ◌==◌, if◌then◌else◌, add_u64, sub_u64, bit_and,
}
use cwsd.RemoteKey.Protocol.{Edge, Packet, max_packet_bytes, decode}

-- `remote_key_config`, less what only opens the socket and the device.
pub record RemoteKeyConfig : Type 0 where
  pub playout_ms : ℕ
  pub silence_ms : ℕ
  pub max_key_down_ms : ℕ
  pub ptt_lead_ms : ℕ
  pub ptt_tail_ms : ℕ

-- A `uint32_t` of milliseconds as a `uint64_t` of microseconds; the product fits.
abbrev pub us : ℕ → ℕ
us ms = ms * 1000

pub record ScheduledEdge : Type 0 where
  pub at_us : ℕ
  pub state : ℕ

-- What the two threads share: the members under `mtx`, and the two atomics.
pub record Link : Type 0 where
  pub queue : List ScheduledEdge
  pub have_anchor : Bool
  pub anchor_src_us : ℕ
  pub anchor_local_us : ℕ
  pub last_enqueued_src : ℕ
  pub session_id : ℕ
  pub have_session : Bool
  pub last_rx_us : ℕ
  pub reset_requested : Bool

-- The members before the first datagram.
abbrev pub idle_link : Link
idle_link = record {
  queue = [];
  have_anchor = false;
  anchor_src_us = 0;
  anchor_local_us = 0;
  last_enqueued_src = 0;
  session_id = 0;
  have_session = false;
  last_rx_us = 0;
  reset_requested = false;
}

-- `FLAG_SESSION_RESET`
abbrev pub flag_session_reset : ℕ
flag_session_reset = 0x01

unfoldable pub wants_reset : Packet → Bool
wants_reset pkt = not (bit_and pkt.flags flag_session_reset == 0)

unfoldable pub new_session : Link → Packet → Bool
new_session l pkt = not l.have_session || not (pkt.session_id == l.session_id)

-- A new session, or an explicit reset, drops the anchor and whatever is queued.
pub begin_session : Link → Packet → Link
unfolding wants_reset new_session
begin_session l pkt =
    if new_session l pkt || wants_reset pkt
    then record l {
      session_id = pkt.session_id;
      have_session = true;
      have_anchor = false;
      last_enqueued_src = 0;
      queue = [];
      reset_requested = true;
    }
    else l

-- What `replay_worker` does to the link when it finds the stream silent.
unfoldable pub drop_queue : Link → Link
drop_queue l = record l { queue = []; have_anchor = false }

-- `queue.pop_front()`
unfoldable pub pop_front : Link → Link
pop_front l = record l { queue = drop 1 l.queue }

module _ (cfg : RemoteKeyConfig) (now : ℕ) where
  -- The first new edge ties the operator's clock to the local one.
  pub set_anchor : Link → Edge → Link
  set_anchor l e = if l.have_anchor then l else record l {
    anchor_src_us = e.ts_us;
    anchor_local_us = add_u64 now (us cfg.playout_ms);
    have_anchor = true;
  }

  -- The local time of an edge; an edge that comes too late is due at once.
  pub schedule : Link → Edge → ℕ
  schedule l e =
      let scheduled = add_u64 l.anchor_local_us (sub_u64 e.ts_us l.anchor_src_us) in
      if ltb scheduled now then now else scheduled

  -- The body of the loop over the packet's edges.
  pub enqueue : Link → Edge → Link
  unfolding set_anchor schedule
  enqueue l e =
      if leb e.ts_us l.last_enqueued_src
      then l
      else let anchored = set_anchor l e in
        record anchored {
          last_enqueued_src = e.ts_us;
          queue = anchored.queue ++ record { at_us = schedule anchored e; state = e.state } ∷ [];
        }

  pub enqueue_all : Link → List Edge → Link
  enqueue_all l [] = l
  enqueue_all l (e ∷ es) = enqueue_all (enqueue l e) es

  -- The part of a turn under the lock.
  pub apply_packet : Link → Packet → Link
  unfolding begin_session
  apply_packet l pkt = enqueue_all (begin_session l pkt) pkt.edges

  -- A turn of `receive_worker`; a datagram that does not decode is ignored.
  pub receive : Link → List ℕ → Link
  receive l datagram = elim (decode (take max_packet_bytes datagram)) [
    | none ↦ l
    | some pkt ↦ apply_packet (record l { last_rx_us = now }) pkt
  ]
