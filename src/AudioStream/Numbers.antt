-- ===== src/AudioStream/Numbers.antt =====
-- The numbers of the packets, as a receiver reads them.
use cwsd.Shared.{
  ℕ, ◌+◌, ◌*◌, ◌<◌, ◌≤◌, ◌^◌, ◌≡◌, refl, sym, subst, Bool, true, none, some, List, [], ◌∷◌, ◌++◌,
  append_assoc, append-nil, All, length, length-append, get_or, ltb, ◌==◌, add_u32, if_both,
  if_either, arith,
}
use mathlib.Core.List.{map}
use cwsd.AudioStream.{
  Clients, put_be32, header_bytes, max_packet, Sent, AudioStreamServer, broadcast, Captured,
  overrun, failed, frames, Reading, polled, stream, work_turn, work,
}

-- The number in front of a packet.
abbrev pub get_be32 : List ℕ → ℕ
get_be32 p = get_or p 0 0 * 2 ^ 24 + get_or p 1 0 * 2 ^ 16 + get_or p 2 0 * 2 ^ 8 + get_or p 3 0

get_be32-put_be32 : (v : ℕ) (rest : List ℕ) → v < 2 ^ 32 → get_be32 (put_be32 v ++ rest) ≡ v
unfolding put_be32
get_be32-put_be32 v rest fits = omega arith

-- A datagram with a number and some payload that fits the receiver's buffer.
abbrev pub IsNumbered : ℕ → Sent → Type 0
IsNumbered n d =
    (get_be32 d.packet ≡ n) × (header_bytes < length d.packet) × (length d.packet ≤ max_packet)

-- Datagrams in batches that are not empty, one number for each batch, from one value of the counter
-- to another.
pub data Numbered : ℕ → List Sent → ℕ → Type 0 where
  done : {n : ℕ} → Numbered n [] n
  batch :
      {n m : ℕ} {later : List Sent} (sent : List Sent)
      → 0 < length sent
      → All (IsNumbered n) sent
      → Numbered (add_u32 n 1) later m
      → Numbered n (sent ++ later) m

Numbered-append :
    {n m k : ℕ} {sent later : List Sent}
    → Numbered n sent m
    → Numbered m later k
    → Numbered n (sent ++ later) k
Numbered-append done q = q
Numbered-append {n = n} {k = k} {later = later} (batch {later = rest} ds some_sent a p) q =
    subst (λ xs. Numbered n xs k) (sym (append_assoc ds rest later))
      (batch ds some_sent a (Numbered-append p q))

All-packets :
    (v : ℕ) (payload : List ℕ) (cs : Clients)
    → v < 2 ^ 32
    → 0 < length payload
    → header_bytes + length payload ≤ max_packet
    → All (IsNumbered v) (map (λ c. record { to = c.1.addr; packet = put_be32 v ++ payload }) cs)
unfolding put_be32
All-packets v payload [] fits some_payload short = tt
All-packets v payload (c ∷ cs) fits some_payload short = (
  (
    get_be32-put_be32 v payload fits,
    ground (arith, length-append (put_be32 v) payload),
    ground (arith, length-append (put_be32 v) payload),
  ),
  All-packets v payload cs fits some_payload short,
)

-- What a run sends, and the counter behind it.
abbrev Counts : ℕ → AudioStreamServer × List Sent → Type 0
Counts n o = Numbered n o.1 o.0.sequence × (o.0.sequence < 2 ^ 32)

idle : (s : AudioStreamServer) → s.sequence < 2 ^ 32 → Counts s.sequence (s, [])
idle s fits = (done, fits)

batch-Counts :
    (n : ℕ) (sent : List Sent) (s : AudioStreamServer)
    → s.sequence ≡ add_u32 n 1
    → 0 < length sent
    → All (IsNumbered n) sent
    → Counts n (s, sent)
batch-Counts n sent s e some_sent a = (
  subst (λ m. Numbered n sent m) (sym e)
      (subst (λ xs. Numbered n xs (add_u32 n 1)) (append-nil sent) (batch sent some_sent a done)),
  ground arith,
)

broadcast_parts-Counts :
    (payload : List ℕ) (cs : Clients) (n : ℕ) (b c : Bool)
    → n < 2 ^ 32
    → Counts n (
        broadcast payload
          (record { clients = cs; sequence = n; capturing = b; capture_was_open = c }))
unfolding broadcast
broadcast_parts-Counts payload [] n b c fits = (done, fits)
broadcast_parts-Counts payload (e ∷ cs) n b c fits =
    let packets : List Sent =
      map (λ c. record { to = c.1.addr; packet = put_be32 n ++ payload }) (e ∷ cs) in
    if_either (Counts n) (length payload == 0) (λ empty. (done, fits))
      (λ filled.
        if_either (Counts n) (ltb max_packet (header_bytes + length payload)) (λ long. (done, fits))
          (λ short.
            batch-Counts n packets
              (record {
                clients = e ∷ cs;
                sequence = add_u32 n 1;
                capturing = b;
                capture_was_open = c;
              })
              refl (omega arith)
              (All-packets n payload (e ∷ cs) fits (ground arith) (ground arith))))

broadcast-Counts :
    (payload : List ℕ) (s : AudioStreamServer)
    → s.sequence < 2 ^ 32
    → Counts s.sequence (broadcast payload s)
broadcast-Counts payload s fits =
    broadcast_parts-Counts payload s.clients s.sequence s.capturing s.capture_was_open fits

stream_parts-Counts :
    (timeout : ℕ) (r : Reading) (c : Captured) (s : AudioStreamServer)
    → s.sequence < 2 ^ 32
    → Counts s.sequence (stream timeout (record r { captured = c }) s)
unfolding stream
stream_parts-Counts timeout r overrun s fits = (done, fits)
stream_parts-Counts timeout r failed s fits = (done, fits)
stream_parts-Counts timeout r (frames none) s fits = (done, fits)
stream_parts-Counts timeout r (frames (some payload)) s fits =
    broadcast-Counts payload (polled timeout (record r { captured = frames (some payload) }) s) fits

stream-Counts :
    (timeout : ℕ) (r : Reading) (s : AudioStreamServer)
    → s.sequence < 2 ^ 32
    → Counts s.sequence (stream timeout r s)
stream-Counts timeout r s fits = stream_parts-Counts timeout r r.captured s fits

work_turn-Counts :
    (timeout : ℕ) (r : Reading) (s : AudioStreamServer)
    → s.sequence < 2 ^ 32
    → Counts s.sequence (work_turn timeout r s)
unfolding work_turn
work_turn-Counts timeout r s fits =
    if_both (Counts s.sequence) s.capturing (stream-Counts timeout r s fits) (
      if_both (Counts s.sequence) r.opens
        (stream-Counts timeout r (record s { capturing = true; capture_was_open = true }) fits)
        (done, fits))

work-Counts :
    (timeout : ℕ) (rs : List Reading) (s : AudioStreamServer)
    → s.sequence < 2 ^ 32
    → Counts s.sequence (work timeout rs s)
unfolding work
work-Counts timeout [] s fits = (done, fits)
work-Counts timeout (r ∷ rs) s fits =
    let now = work_turn-Counts timeout r s fits in
    let later = work-Counts timeout rs (work_turn timeout r s).0 now.1 in
    (Numbered-append now.0 later.0, later.1)

-- All that the worker sends, whatever it reads, goes out in batches with one number each, a
-- number to the next batch by one higher, modulo 2 ^ 32, with no number left out; each packet has a
-- payload and at most 1500 bytes. The counter fits 32 bits at the start.
pub work-Numbered :
    (timeout : ℕ) (rs : List Reading) (s : AudioStreamServer)
    → s.sequence < 2 ^ 32
    → Numbered s.sequence (work timeout rs s).1 (work timeout rs s).0.sequence
work-Numbered timeout rs s fits = (work-Counts timeout rs s fits).0
